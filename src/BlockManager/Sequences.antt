-- ===== src/BlockManager/Sequences.antt =====
-- pagedllm/block_manager.py: the constructor, `free`, `fork` and `slot_mapping`.
use paged_llm.Base.{
  ℕ, zero, suc, ◌+◌, ◌*◌, ◌/◌, ◌%◌, ◌<◌, ◌≤◌, ◌≡◌, refl, ap, List, [], ◌∷◌, ◌++◌, reverse, Bool,
  if◌then◌else◌, ltb, ◌==◌, length, count, get_elem?, some, ok, count-append, count-reverse,
  AllBelow, AllBelow-of_count, arith, get_elem?_in_range, slot_block, lookup, raise, value_error,
  ◌⊎◌, inl, inr, Bool-cases,
}
use paged_llm.Sequence.{Sequence}
use paged_llm.BlockManager.{BlockManager, init, initial, range_from}
use paged_llm.BlockManager.Slots.{free, fork, slot_mapping}
use paged_llm.BlockManager.Invariant.{IsValid, SameShape}
use paged_llm.BlockManager.Loops.{touch_all_lem, release_all_lem}

pub count-range_from :
    (b i n : ℕ)
    → count b (range_from i n) ≡ (if ltb b i then 0 else (if ltb b (i + n) then 1 else 0))
unfolding range_from
count-range_from b i zero = ground arith
count-range_from b i (suc n) = ground (arith, count-range_from b (i + 1) n)

pub length-range_from : (i n : ℕ) → length (range_from i n) ≡ n
unfolding range_from
length-range_from i zero = refl
length-range_from i (suc n) = ap suc (length-range_from (i + 1) n)

-- A new manager holds no reference.
pub initial-IsValid :
    (num_blocks block_size : ℕ) (enable : Bool)
    → 0 < block_size
    → IsValid (initial num_blocks block_size enable) []
unfolding init lookup range_from
initial-IsValid num_blocks block_size enable s = record {
  size_pos = s;
  ids = λ b h. refl;
  free_count = λ b. ground (arith, count-range_from b 0 num_blocks);
  held_count = λ b. ground arith;
  cached_of_hash = λ h b l e. cc;
  hash_of_cached = λ h b e. absurd (cc);
  disabled = λ e h. refl;
}

-- For a positive block size, the constructor raises ValueError for an empty pool; any other is
-- valid with no reference held, with all its blocks free.
pub init_total :
    (num_blocks block_size : ℕ) (enable : Bool)
    → 0 < block_size
    → ((num_blocks ≡ 0) × (init num_blocks block_size enable ≡ raise value_error))
      ⊎ ((bm : BlockManager) × (init num_blocks block_size enable ≡ ok bm)
          × IsValid bm []
          × (length bm.free ≡ num_blocks)
          × (bm.num_blocks ≡ num_blocks))
unfolding init range_from
init_total num_blocks block_size enable s = elim (Bool-cases (num_blocks == 0)) [
  | inl zero_blocks ↦ inl (ground arith, rw zero_blocks)
  | inr some_blocks ↦ inr (
    initial num_blocks block_size enable,
    rw some_blocks,
    initial-IsValid num_blocks block_size enable s,
    length-range_from 0 num_blocks,
    refl,
  )
]

-- On a valid pool, `free` of a sequence does not raise, and empties its block table. The pool is
-- valid with the references of the others and of the same shape, and no fewer blocks are free.
pub free_total :
    (seq : Sequence) (rest : List ℕ) {bm : BlockManager}
    → IsValid bm (seq.block_table ++ rest)
    → (bm' : BlockManager) × (free bm seq ≡ ok (record seq { block_table = [] }, bm'))
      × IsValid bm' rest
      × SameShape bm bm'
      × (length bm.free ≤ length bm'.free)
unfolding free
free_total seq rest v =
    let t = seq.block_table in
    let (bm', e, v', s, f) = release_all_lem (reverse t) rest v (λ b.
      omega (arith, count-append b t rest, count-append b (reverse t) rest, count-reverse b t)) in
    (bm', rw e, v', s, f)

-- On a valid pool and for a child without blocks, `fork` does not raise. The child gets the
-- parent's table and its number of computed tokens, and the pool is valid with one more reference
-- to each block of the table, and of the same shape.
pub fork_total :
    (parent child : Sequence) (rest : List ℕ) {bm : BlockManager}
    → IsValid bm (parent.block_table ++ rest)
    → child.block_table ≡ []
    → (bm' : BlockManager) × (fork bm parent child
        ≡ ok (
          record child {
            block_table = parent.block_table;
            num_computed_tokens = parent.num_computed_tokens;
          },
          bm',
        ))
      × IsValid bm' (parent.block_table ++ (parent.block_table ++ rest))
      × SameShape bm bm'
unfolding fork
fork_total parent child rest {bm} v e =
    let t = parent.block_table in
    let below : AllBelow bm.num_blocks t =
      AllBelow-of_count bm.num_blocks t
        (λ b p. ground (arith, v.held_count b, count-append b t rest)) in
    let (bm', eq, v', s, f) = touch_all_lem t v below in (bm', rw (e, eq), v', s)

-- Slot `i` of a list lies in the block that the table names for position `start + i`.
abbrev pub SlotAt : BlockManager → Sequence → List ℕ → ℕ → ℕ → Type 0
SlotAt bm seq slots start i =
    (b : ℕ) × (get_elem? seq.block_table ((start + i) / bm.block_size) ≡ some b)
    × (get_elem? slots i ≡ some (b * bm.block_size + (start + i) % bm.block_size))

SlotAt-cons :
    (bm : BlockManager) (seq : Sequence) (slots : List ℕ) (start n b : ℕ)
    → get_elem? seq.block_table (start / bm.block_size) ≡ some b
    → ((i : ℕ) → i < n → SlotAt bm seq slots (start + 1) i)
    → (i : ℕ) → i < suc n
    → SlotAt bm seq ((b * bm.block_size + start % bm.block_size) ∷ slots) start i
SlotAt-cons bm seq slots start n b at each zero lt =
    let e : start + 0 ≡ start = omega arith in (b, rw e at, rw e refl)
SlotAt-cons bm seq slots start n b at each (suc i) lt =
    let e : start + suc i ≡ start + 1 + i = omega arith in rw e (each i (omega arith))

-- For a positive block size and positions that the table covers, `slot_mapping` does not raise and
-- returns one slot for each position: slot `i` is at the offset of position `start + i`, in the
-- block that the table names for that position.
pub slot_mapping_total :
    (bm : BlockManager) (seq : Sequence) (start n : ℕ)
    → 0 < bm.block_size
    → start + n ≤ length seq.block_table * bm.block_size
    → (slots : List ℕ) × (slot_mapping bm seq start n ≡ ok slots)
      × (length slots ≡ n)
      × ((i : ℕ) → i < n → SlotAt bm seq slots start i)
unfolding slot_mapping
slot_mapping_total bm seq start zero pos h = ([], refl, refl, λ i lt. absurd (omega arith))
slot_mapping_total bm seq start (suc n) pos h =
    let (b, at) =
      get_elem?_in_range seq.block_table (start / bm.block_size)
        (slot_block start (length seq.block_table) bm.block_size (omega arith)) in
    let (rest, e, size, each) = slot_mapping_total bm seq (start + 1) n pos (omega arith) in
    (
      (b * bm.block_size + start % bm.block_size) ∷ rest,
      rw (at, e),
      ap suc size,
      SlotAt-cons bm seq rest start n b at each,
    )
