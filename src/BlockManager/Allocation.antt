-- ===== src/BlockManager/Allocation.antt =====
-- pagedllm/block_manager.py: `allocate_slots` as a whole. It never raises, and either gives the
-- sequence room for its tokens in blocks that it may write, or leaves the sequence as it was.
use paged_llm.Base.{
  ℕ, ◌+◌, ◌/◌, ◌%◌, ◌<◌, ◌≡◌, ◌≢◌, ◌⊎◌, inl, inr, ◌∙◌, List, [], ◌∷◌, ◌++◌, Bool, ◌&&◌, not,
  if◌then◌else◌, ltb, ◌==◌, length, set, get_elem?, Bool-cases, none, some, Result, ok,
  count-append, arith, length-append, count-get_elem?, get_elem?_in_range,
}
use paged_llm.Sequence.{Sequence}
use paged_llm.BlockManager.{BlockManager}
use paged_llm.BlockManager.Slots.{Allocation, roll_back, copy_block, copy_on_write}
use paged_llm.BlockManager.Invariant.{IsValid, SameShape, SameCount}
use paged_llm.BlockManager.Loops.{Fresh}
use paged_llm.BlockManager.Copies.{
  Settled, Settled-unchanged, Settled-copied, copy_block_lem, roll_back_lem,
}

module _ (seq : Sequence) (num_new first_write : ℕ) (computed new rest : List ℕ) where
  abbrev pub all : List ℕ
  all = (seq.block_table ++ computed) ++ new

  -- The call came to nothing for want of a block for the copy.
  abbrev pub Refuses : BlockManager → Result Allocation → Type 0
  Refuses bm r =
      (bm' : BlockManager) × (r ≡ ok (none, seq, bm'))
      × IsValid bm' (seq.block_table ++ rest)
      × SameShape bm bm'
      × (length bm.free ≡ 0)
      × (first_write % bm.block_size ≢ 0)

  -- The call went through.
  abbrev pub Settles : BlockManager → Result Allocation → Type 0
  Settles bm r =
      (new' : List ℕ) × (table : List ℕ) × (bm' : BlockManager) × (r
        ≡ ok (some new', record seq { block_table = table }, bm'))
      × Settled bm bm' (seq.block_table ++ computed) new rest table num_new first_write

  module _ {bm : BlockManager} {held : List ℕ} (v : IsValid bm held)
      (e : SameCount held (all ++ rest))
      (fresh : Fresh new ((seq.block_table ++ computed) ++ rest)) where
    -- The block to write exists.
    shared_case :
        (x : ℕ)
        → first_write / bm.block_size < length (seq.block_table ++ computed)
        → get_elem? all (first_write / bm.block_size) ≡ some x
        → (r : Result Allocation)
        → r ≡ (
            if ltb 1 (bm.blocks x).ref_count && not (first_write % bm.block_size == 0)
            then (if length bm.free == 0
                then roll_back bm (record seq { block_table = all }) computed new
                else copy_block bm
                    (record seq { block_table = all })
                    (first_write / bm.block_size)
                    (bm.blocks x)
                    new)
            else ok (some new, record seq { block_table = all }, bm))
        → Refuses bm r ⊎ Settles bm r
    shared_case x lt at_idx r er =
        elim (Bool-cases
          (ltb 1 (bm.blocks x).ref_count && not (first_write % bm.block_size == 0))) [
            | inl shared ↦ elim (Bool-cases (length bm.free == 0)) [
              | inl full ↦
                  let (bm', eq, v', s) = roll_back_lem seq computed new rest v e in
                  inl (bm', er ∙ rw (shared, full, eq), v', s, ground arith, ground arith)
              | inr room ↦
                  let (f, bm', eq, v', s, unheld) =
                    copy_block_lem (record seq { block_table = all }) (first_write / bm.block_size)
                      x new rest v e at_idx (ground arith) in
                  inr (
                    new ++ f ∷ [],
                    set all (first_write / bm.block_size) f,
                    bm',
                    er ∙ rw (shared, room, eq),
                    Settled-copied seq num_new first_write computed new rest v e fresh bm' x f lt
                        at_idx unheld s v',
                  )
            ]
            | inr alone ↦ inr (
              new,
              all,
              bm,
              er ∙ rw alone,
              Settled-unchanged seq num_new first_write computed new rest v e fresh
                  (λ b h1 h2 h3 at_b. ground (arith, at_b, at_idx)),
            )
          ]

    pub copy_on_write_lem :
        let r =
          copy_on_write bm (record seq { block_table = all }) num_new first_write computed new in
        Refuses bm r ⊎ Settles bm r
    unfolding copy_on_write
    copy_on_write_lem = elim (Bool-cases writes) [
      | inl w ↦
          let (x, at_idx) = get_elem?_in_range all idx (ground arith) in
          let lt : idx < length (seq.block_table ++ computed) =
            ground (arith, length-append (seq.block_table ++ computed) new) in
          let known : x < bm.num_blocks = ground (
            arith,
            v.held_count x,
            e x,
            count-append x all rest,
            count-get_elem? all idx x at_idx,
          ) in
          shared_case x lt at_idx _ (rw (w, at_idx) (ground arith))
      | inr w ↦ inr (
        new,
        all,
        bm,
        rw w,
        Settled-unchanged seq num_new first_write computed new rest v e fresh (λ b h1 h2 h3 at_b.
            absurd (ground (arith, length-append (seq.block_table ++ computed) new))),
      )
    ]
      where
        idx : ℕ
        idx = first_write / bm.block_size

        writes : Bool
        writes = ltb 0 num_new && ltb idx (length all) && ltb (idx + length new) (length all)
