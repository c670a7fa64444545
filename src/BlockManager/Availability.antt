-- ===== src/BlockManager/Availability.antt =====
-- pagedllm/block_manager.py: `can_allocate` foretells `allocate_slots`.
use paged_llm.Base.{
  ℕ, ◌+◌, ◌%◌, ◌≡◌, ◌≢◌, ◌⊎◌, inl, inr, List, ◌++◌, true, false, ltb, leb, length, none, ok,
  AllBelow, Bool-cases, arith,
}
use paged_llm.Sequence.{Sequence}
use paged_llm.BlockManager.{BlockManager}
use paged_llm.BlockManager.Slots.{can_allocate, allocate_slots}
use paged_llm.BlockManager.Invariant.{IsValid}
use paged_llm.BlockManager.Loops.{unreferenced, count_unreferenced_lem}
use paged_llm.BlockManager.Grants.{first_position, needed, Grants, allocate_slots_total}

-- Whether the call does what is foretold.
abbrev pub Foretold : BlockManager → Sequence → ℕ → List ℕ → List ℕ → Type 0
Foretold bm seq num_new computed rest =
    ((can_allocate bm seq num_new computed ≡ ok false)
      × (allocate_slots bm seq num_new computed ≡ ok (none, seq, bm)))
    ⊎ ((can_allocate bm seq num_new computed ≡ ok true)
        × (Grants seq num_new computed rest bm (allocate_slots bm seq num_new computed)
            ⊎ (first_position bm seq computed % bm.block_size ≢ 0)))

-- `can_allocate` foretells `allocate_slots`. On a pool that is valid for the references of the
-- sequence and of all others, with the computed blocks in the pool: either `can_allocate` returns
-- False, and `allocate_slots` returns None with the sequence and the pool as they were; or it
-- returns True, and `allocate_slots` gives the sequence a table as it needs, or the first position
-- is within a block, which a copy-on-write may want.
pub can_allocate-allocate_slots :
    (bm : BlockManager) (seq : Sequence) (num_new : ℕ) (computed rest : List ℕ)
    → IsValid bm (seq.block_table ++ rest)
    → AllBelow bm.num_blocks computed
    → Foretold bm seq num_new computed rest
unfolding can_allocate allocate_slots
can_allocate-allocate_slots bm seq num_new computed rest v below =
    let counted = count_unreferenced_lem bm computed below in
    let wanted = needed bm seq num_new computed + unreferenced bm computed in
    elim (Bool-cases (leb wanted (length bm.free))) [
      | inr short_of ↦
          let short : ltb (length bm.free) wanted ≡ true = ground (arith, short_of) in
          inl (rw (counted, short_of), rw (counted, short))
      | inl fits ↦ inr (
        rw (counted, fits),
        elim (allocate_slots_total seq num_new computed rest v below) [
          | inr granted ↦ inl granted
          | inl (bm', e, v', shape, few, why) ↦ elim why [
            | inl (same, less) ↦ absurd (ground (arith, fits, less))
            | inr partly ↦ inr partly
          ]
        ],
      )
    ]
