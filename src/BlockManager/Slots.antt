-- ===== src/BlockManager/Slots.antt =====
-- pagedllm/block_manager.py: what a sequence asks of the block manager.
use paged_llm.Base.{
  ℕ, zero, suc, ◌+◌, ◌-◌, ◌*◌, ◌/◌, ◌%◌, List, [], ◌∷◌, ◌++◌, Bool, true, false, ◌&&◌, not, Option,
  none, some, if◌then◌else◌, ltb, leb, ◌==◌, length, get_elem?, set, take, reverse, Result, ok,
  index_error, assertion_error, guard, or_raise, ◌>>=◌, ◌>>◌,
}
use paged_llm.Sequence.{Sequence}
use paged_llm.BlockManager.{
  BlockManager, KvBlock, CopyOnWrite, num_blocks_for_tokens, block, allocate_block, release,
  touch_all, release_all, allocate_all,
}

-- `sum(1 for b in bs if self.blocks[b].ref_count == 0)`
unfoldable pub count_unreferenced : BlockManager → List ℕ → Result ℕ
unfolding block
count_unreferenced bm [] = ok 0
count_unreferenced bm (b ∷ bs) = do
  k ← block bm b
  n ← count_unreferenced bm bs
  ok ((if k.ref_count == 0 then 1 else 0) + n)

-- `max(0, …)` of a difference is the truncated subtraction.
unfoldable pub num_blocks_needed : BlockManager → Sequence → ℕ → ℕ → ℕ
num_blocks_needed bm seq num_new num_cached =
    num_blocks_for_tokens (seq.num_computed_tokens + num_cached + num_new) bm.block_size
    - (length seq.block_table + num_cached / bm.block_size)

-- `need <= free - unreferenced`, over the integers.
unfoldable pub can_allocate : BlockManager → Sequence → ℕ → List ℕ → Result Bool
unfolding count_unreferenced num_blocks_needed
can_allocate bm seq num_new computed = do
  unreferenced ← count_unreferenced bm computed
  let need = num_blocks_needed bm seq num_new (length computed * bm.block_size)
  ok (leb (need + unreferenced) (length bm.free))

-- What `allocate_slots` returns and leaves behind: the new blocks or None, and the two objects.
abbrev pub Allocation : Type 0
Allocation = Option (List ℕ) × Sequence × BlockManager

-- `del seq.block_table[len(seq.block_table) - n:]`
abbrev pub drop_last : Sequence → ℕ → Sequence
drop_last seq n = record seq { block_table = take (length seq.block_table - n) seq.block_table }

-- No block is left for the copy: give back what this call took.
unfoldable pub roll_back : BlockManager → Sequence → List ℕ → List ℕ → Result Allocation
unfolding release_all
roll_back bm seq computed new_blocks = do
  bm1 ← release_all bm new_blocks
  let seq1 = drop_last seq (length new_blocks)
  bm2 ← release_all bm1 computed
  ok (none, drop_last seq1 (length computed), bm2)

-- A fresh block takes the place of the shared one at `idx`.
unfoldable pub copy_block : BlockManager → Sequence → ℕ → KvBlock → List ℕ → Result Allocation
unfolding allocate_block release
copy_block bm seq idx shared new_blocks = do
  (fresh, bm1) ← allocate_block bm
  let copy : CopyOnWrite = record { src_block = shared.block_id; dst_block = fresh.block_id }
  bm2 ← release (record bm1 { pending_cow = bm1.pending_cow ++ copy ∷ [] }) shared.block_id
  ok (
    some (new_blocks ++ fresh.block_id ∷ []),
    record seq { block_table = set seq.block_table idx fresh.block_id },
    bm2,
  )

-- The copy-on-write test; `first_write` is the position of the first token to write.
unfoldable pub copy_on_write : BlockManager → Sequence → ℕ → ℕ → List ℕ → List ℕ → Result Allocation
unfolding block roll_back copy_block
copy_on_write bm seq num_new first_write computed new_blocks =
    let idx = first_write / bm.block_size in
    let size = length seq.block_table in
    if ltb 0 num_new && ltb idx size && ltb (idx + length new_blocks) size
    then (do
      b ← or_raise (get_elem? seq.block_table idx) index_error
      shared ← block bm b
      if ltb 1 shared.ref_count && not (first_write % bm.block_size == 0)
          then (if length bm.free == 0
              then roll_back bm seq computed new_blocks
              else copy_block bm seq idx shared new_blocks)
          else ok (some new_blocks, seq, bm))
    else ok (some new_blocks, seq, bm)

-- The part of `allocate_slots` behind the test of the pool.
unfoldable pub take_slots : BlockManager → Sequence → ℕ → List ℕ → ℕ → Result Allocation
unfolding touch_all allocate_all copy_on_write
take_slots bm seq num_new computed need = do
  bm1 ← touch_all bm computed
  (new_blocks, bm2) ← allocate_all bm1 need
  let seq' = record seq { block_table = (seq.block_table ++ computed) ++ new_blocks }
  let first_write = seq.num_computed_tokens + length computed * bm.block_size
  copy_on_write bm2 seq' num_new first_write computed new_blocks

unfoldable pub allocate_slots : BlockManager → Sequence → ℕ → List ℕ → Result Allocation
unfolding count_unreferenced num_blocks_needed take_slots
allocate_slots bm seq num_new computed = do
  let need = num_blocks_needed bm seq num_new (length computed * bm.block_size)
  unreferenced ← count_unreferenced bm computed
  if ltb (length bm.free) (need + unreferenced)
      then ok (none, seq, bm)
      else take_slots bm seq num_new computed need

unfoldable pub free : BlockManager → Sequence → Result (Sequence × BlockManager)
unfolding release_all
free bm seq = do
  bm' ← release_all bm (reverse seq.block_table)
  ok (record seq { block_table = [] }, bm')

abbrev is_empty : List ℕ → Bool
is_empty [] = true
is_empty (x ∷ xs) = false

-- The child comes back with its blocks; the parent is not changed.
unfoldable pub fork : BlockManager → Sequence → Sequence → Result (Sequence × BlockManager)
unfolding touch_all
fork bm parent child = do
  guard (is_empty child.block_table) assertion_error
  bm' ← touch_all bm parent.block_table
  ok (
    record child {
      block_table = parent.block_table;
      num_computed_tokens = parent.num_computed_tokens;
    },
    bm',
  )

unfoldable pub take_pending_copies : BlockManager → List CopyOnWrite × BlockManager
take_pending_copies bm = (bm.pending_cow, record bm { pending_cow = [] })

-- The slot of each token from `start` on, `n` tokens.
unfoldable pub slot_mapping : BlockManager → Sequence → ℕ → ℕ → Result (List ℕ)
slot_mapping bm seq start zero = ok []
slot_mapping bm seq start (suc n) = do
  b ← or_raise (get_elem? seq.block_table (start / bm.block_size)) index_error
  rest ← slot_mapping bm seq (start + 1) n
  ok ((b * bm.block_size + start % bm.block_size) ∷ rest)
