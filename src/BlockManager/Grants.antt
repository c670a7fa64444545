-- ===== src/BlockManager/Grants.antt =====
-- pagedllm/block_manager.py: the contract of `allocate_slots`.
use paged_llm.Base.{
  ℕ, ◌+◌, ◌-◌, ◌*◌, ◌/◌, ◌%◌, ◌<◌, ◌≤◌, ◌≡◌, ◌≢◌, ◌⊎◌, inl, inr, refl, ap, ◌∙◌, List, ◌++◌, ltb,
  leb, length, count, get_elem?, Bool-cases, none, some, Result, ok, ltb→lt, ltb→ge, count-append,
  AllBelow, arith, length-append, get_elem?-append_left, mul-div_cancel, ceil_covers, ceil_tight,
  last_block, mul_mono,
}
use paged_llm.Sequence.{Sequence}
use paged_llm.BlockManager.{BlockManager}
use paged_llm.BlockManager.Slots.{Allocation, allocate_slots, num_blocks_needed}
use paged_llm.BlockManager.Invariant.{
  IsValid, SameShape, SameCount, SameShape-refl, SameShape-trans,
}
use paged_llm.BlockManager.Loops.{
  touch_all_lem, allocate_all_lem, unreferenced, count_unreferenced_lem,
}
use paged_llm.BlockManager.Copies.{Settled}
use paged_llm.BlockManager.Allocation.{copy_on_write_lem}

-- The position of the first token that the call makes room for.
abbrev pub first_position : BlockManager → Sequence → List ℕ → ℕ
first_position bm seq computed = seq.num_computed_tokens + length computed * bm.block_size

abbrev pub needed : BlockManager → Sequence → ℕ → List ℕ → ℕ
needed bm seq num_new computed = num_blocks_needed bm seq num_new (length computed * bm.block_size)

-- What the sequence has after a call that went through: `table` is its new block table, and `rest`
-- the references of all other sequences.
pub record Granted (bm bm' : BlockManager) (seq : Sequence) (num_new : ℕ)
    (computed rest table : List ℕ) : Type 0 where
  -- The references are accounted for.
  pub valid : IsValid bm' (table ++ rest)
  pub shape : SameShape bm bm'
  -- The table holds the computed, the cached and the new tokens, in no more blocks than needed.
  pub room : first_position bm seq computed + num_new ≤ length table * bm.block_size
  pub size :
      length table ≡ length seq.block_table + length computed + needed bm seq num_new computed
  -- The old entries and the cache hits behind them stay, except that of the first position.
  pub kept :
      (i : ℕ)
      → i < length (seq.block_table ++ computed)
      → i ≢ first_position bm seq computed / bm.block_size
      → get_elem? table i ≡ get_elem? (seq.block_table ++ computed) i
  -- No other reference to a block that will be written, for a table that had no spare block.
  pub writable :
      0 < num_new
      → length seq.block_table * bm.block_size < seq.num_computed_tokens + bm.block_size
      → (i b : ℕ) → first_position bm seq computed / bm.block_size ≤ i
      → get_elem? table i ≡ some b
      → count b (table ++ rest) ≡ 1

module _ (seq : Sequence) (num_new : ℕ) (computed rest : List ℕ) where
  -- `None`: the sequence is as it was, and the pool was short of blocks.
  abbrev pub Refused : BlockManager → Result Allocation → Type 0
  Refused bm r =
      (bm' : BlockManager) × (r ≡ ok (none, seq, bm'))
      × IsValid bm' (seq.block_table ++ rest)
      × SameShape bm bm'
      × (length bm.free ≤ needed bm seq num_new computed + unreferenced bm computed)
      × (((bm' ≡ bm) × (length bm.free < needed bm seq num_new computed + unreferenced bm computed))
          ⊎ (first_position bm seq computed % bm.block_size ≢ 0))

  abbrev pub Grants : BlockManager → Result Allocation → Type 0
  Grants bm r =
      (new : List ℕ) × (table : List ℕ) × (bm' : BlockManager) × (r
        ≡ ok (some new, record seq { block_table = table }, bm'))
      × Granted bm bm' seq num_new computed rest table

  module _ {bm : BlockManager} (v : IsValid bm (seq.block_table ++ rest))
      (below : AllBelow bm.num_blocks computed) where
    Granted-of_Settled :
        (bm2 bm' : BlockManager) (new table : List ℕ)
        → length new ≡ needed bm seq num_new computed
        → SameShape bm bm2
        → Settled bm2 bm'
            (seq.block_table ++ computed)
            new
            rest
            table
            num_new
            (first_position bm seq computed)
        → Granted bm bm' seq num_new computed rest table
    unfolding num_blocks_needed
    Granted-of_Settled bm2 bm' new table size s d = record {
      valid = d.valid;
      shape = SameShape-trans s d.shape;
      room = omega (
        arith,
        total,
        ceil_covers (first_position bm seq computed + num_new) bm.block_size v.size_pos,
        mul_mono ((first_position bm seq computed + num_new + bm.block_size - 1) / bm.block_size)
            (length table) bm.block_size
            (omega (arith, total, mul-div_cancel (length computed) bm.block_size v.size_pos)),
      );
      size = total;
      kept = λ i lt ne. d.kept i (rw s.same_size ne) ∙ get_elem?-append_left old new i lt;
      writable = λ pos tight i b le at_i. elim (Bool-cases (ltb i (length old))) [
        | inl lt ↦
            let (last, partly) =
              last_block (length old) (first_position bm seq computed) i bm.block_size v.size_pos
                (omega (
                  arith,
                  ap (λ (t : ℕ). t * bm.block_size) (length-append seq.block_table computed),
                ))
                le (ltb→lt _ _ lt) in
            d.written_once b pos (rw s.same_size (ground arith)) (rw s.same_size partly)
              (rw (s.same_size, ← last) at_i)
        | inr ge ↦ d.new_once i b (ltb→ge _ _ ge) at_i
      ];
    }
      where
        old : List ℕ
        old = seq.block_table ++ computed

        total :
            length table ≡ length seq.block_table + length computed + needed bm seq num_new computed
        total =
            omega
              (arith, d.size, size, length-append old new, length-append seq.block_table computed)

    -- On a pool that is valid for the references of the sequence and of all others, with the
    -- computed blocks in the pool, `allocate_slots` does not raise, and one of two holds. It
    -- returns None with the sequence as it was, the pool valid for the same references, and the
    -- free blocks no more than those it needs and the unreferenced computed ones; then either they
    -- are fewer and the pool is as it was, or the first position is within a block. Or it gives the
    -- sequence a table with room for the new tokens, of the least length, valid for the references;
    -- only the entry of the first position may differ from the old ones; and if there are new
    -- tokens and the old table has no spare block, the blocks from the first position on have no
    -- other reference.
    pub allocate_slots_total :
        let r = allocate_slots bm seq num_new computed in Refused bm r ⊎ Grants bm r
    unfolding allocate_slots
    allocate_slots_total =
        let need = needed bm seq num_new computed in
        let counted = count_unreferenced_lem bm computed below in
        elim (Bool-cases (ltb (length bm.free) (need + unreferenced bm computed))) [
          | inl short ↦ inl (
            bm,
            rw (counted, short),
            v,
            SameShape-refl bm,
            ground arith,
            inl (refl, ground arith),
          )
          | inr enough ↦
              let (bm1, e1, v1, s1, f1) = touch_all_lem computed v below in
              let (new, bm2, e2, v2, s2, f2, size, fresh) =
                allocate_all_lem need v1 (ground arith) in
              let cow =
                copy_on_write_lem seq num_new (first_position bm seq computed) computed new rest v2
                  (regroup new)
                  (λ b p.
                    let f = fresh b p in
                    omega (
                      arith,
                      f.0,
                      f.1,
                      regroup new b,
                      count-append b new (computed ++ (t ++ rest)),
                      count-append b ((t ++ computed) ++ new) rest,
                      count-append b (t ++ computed) new,
                      count-append b (t ++ computed) rest,
                    )) in
              elim cow [
                | inl (bm', eq, v', s, full, partly) ↦ inl (
                  bm',
                  rw (counted, enough, e1, e2, eq),
                  v',
                  SameShape-trans s1 (SameShape-trans s2 s),
                  ground arith,
                  inr (rw (s2.same_size ∙ s1.same_size) at partly),
                )
                | inr (new', table, bm', eq, d) ↦ inr (
                  new',
                  table,
                  bm',
                  rw (counted, enough, e1, e2, eq),
                  Granted-of_Settled bm2 bm' new table size (SameShape-trans s1 s2) d,
                )
              ]
        ]
      where
        t : List ℕ
        t = seq.block_table

        regroup :
            (new : List ℕ)
            → SameCount (new ++ (computed ++ (t ++ rest))) (((t ++ computed) ++ new) ++ rest)
        regroup new b = omega (
          arith,
          count-append b new (computed ++ (t ++ rest)),
          count-append b computed (t ++ rest),
          count-append b t rest,
          count-append b ((t ++ computed) ++ new) rest,
          count-append b (t ++ computed) new,
          count-append b t computed,
        )

-- If the sequence had no block to spare, it has none to spare afterwards.
pub Granted-tight :
    {bm bm' : BlockManager} (seq : Sequence) (num_new : ℕ) (computed rest table : List ℕ)
    → Granted bm bm' seq num_new computed rest table
    → 0 < bm.block_size
    → length seq.block_table * bm.block_size < seq.num_computed_tokens + bm.block_size
    → length table * bm.block_size < first_position bm seq computed + num_new + bm.block_size
unfolding num_blocks_needed
Granted-tight {bm} seq num_new computed rest table g pos tight =
    let bs = bm.block_size in
    let total = first_position bm seq computed + num_new in
    let have = length seq.block_table + length computed in
    let ceil = (total + bs - 1) / bs in
    let size : length table ≡ have + (ceil - have) =
      omega (arith, g.size, mul-div_cancel (length computed) bs pos) in
    elim (Bool-cases (leb ceil have)) [
      | inl enough ↦
          let same : length table ≡ have = ground arith in
          omega (arith, ap (λ (t : ℕ). t * bs) same)
      | inr more ↦
          let same : length table ≡ ceil = ground arith in
          omega (arith, ap (λ (t : ℕ). t * bs) same, ceil_tight total bs pos)
    ]
