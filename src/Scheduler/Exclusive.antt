-- ===== src/Scheduler/Exclusive.antt =====
-- pagedllm/scheduler.py: the blocks that the running sequences have yet to fill have no hash, and are not
-- shared.
use paged_llm.Base.{
  ℕ, ◌/◌, ◌<◌, ◌≡◌, sym, ap, subst, List, [], ◌++◌, append-nil, ◌*◌, ◌∙◌, All, length, get_elem?,
  get_elem?_bound, mul-div_cancel, some, none, ok, ◌≢◌, count, ◌==◌, false, Bool-cases, inl, inr,
  arith,
}
use paged_llm.Sequence.{Sequence}
use paged_llm.BlockManager.{BlockManager}
use paged_llm.BlockManager.Invariant.{SameShape, IsValid}
use paged_llm.BlockManager.Private.{hash_of, Single, Tame, Clean, Clean-mono}
use paged_llm.BlockManager.Slots.{allocate_slots}
use paged_llm.BlockManager.Growth.{allocate_slots-Grown}
use paged_llm.Scheduler.{write}

-- No block of a sequence has a hash from that of its first token to compute on.
abbrev pub Unfilled : BlockManager → Sequence → Type 0
Unfilled bm seq = Clean bm seq.block_table (seq.num_computed_tokens / bm.block_size)

abbrev pub Exclusive : BlockManager → (ℕ → Sequence) → List ℕ → Type 0
Exclusive bm seqs running = Single bm × ((id : ℕ) → 0 < count id running → Unfilled bm (seqs id))

pub Unfilled-Tame :
    {bm bm' : BlockManager} (seq : Sequence)
    → Tame bm bm'
    → SameShape bm bm'
    → Unfilled bm seq
    → Unfilled bm' seq
Unfilled-Tame {bm} {bm'} seq tame shape clean =
    subst (λ size. Clean bm' seq.block_table (seq.num_computed_tokens / size)) (sym shape.same_size)
      (Clean-mono seq.block_table (seq.num_computed_tokens / bm.block_size) tame clean)

module _ {bm bm' : BlockManager} (seqs : ℕ → Sequence) (running : List ℕ)
    (ex : Exclusive bm seqs running) (tame : Tame bm bm') (shape : SameShape bm bm') where
  pub Exclusive-Tame : Exclusive bm' seqs running
  Exclusive-Tame = (tame.single ex.0, λ j h. Unfilled-Tame (seqs j) tame shape (ex.1 j h))

  -- A write to a sequence that runs, or joins those that run.
  pub Exclusive-write :
      (id : ℕ) (x : Sequence) (running' : List ℕ)
      → Unfilled bm' x
      → ((j : ℕ) → (id == j) ≡ false → 0 < count j running' → 0 < count j running)
      → Exclusive bm' (write seqs id x) running'
  Exclusive-write id x running' own others = (
    tame.single ex.0,
    λ j h. elim (Bool-cases (id == j)) [
      | inl e ↦ rw e own
      | inr e ↦ rw e (Unfilled-Tame (seqs j) tame shape (ex.1 j (others j e h)))
    ],
  )

  -- A write to a sequence that does not run.
  pub Exclusive-away :
      (id : ℕ) (x : Sequence) (running' : List ℕ)
      → ((j : ℕ) → 0 < count j running' → ((id == j) ≡ false) × (0 < count j running))
      → Exclusive bm' (write seqs id x) running'
  Exclusive-away id x running' others = (
    tame.single ex.0,
    λ j h. let (e, runs) = others j h in rw e (Unfilled-Tame (seqs j) tame shape (ex.1 j runs)),
  )

-- A table that `allocate_slots` has made longer.
pub Unfilled-Grown :
    (bm bm' : BlockManager) (seq : Sequence) (table : List ℕ) {held new : List ℕ}
    → IsValid bm held
    → SameShape bm bm'
    → Unfilled bm seq
    → (n : ℕ) → allocate_slots bm seq n [] ≡ ok (some new, record seq { block_table = table }, bm')
    → Unfilled bm' (record seq { block_table = table })
Unfilled-Grown bm bm' seq table {held} {new} v shape clean n e =
    let from = seq.num_computed_tokens / bm.block_size in
    let (tame, grows) =
      allocate_slots-Grown bm bm' seq (record seq { block_table = table }) n [] (some new) from
        v.ids tt e in
    let something : some new ≢ none = λ q. absurd cc in
    subst (λ size. Clean bm' table (seq.num_computed_tokens / size)) (sym shape.same_size)
      (grows something (subst (λ t. Clean bm t from) (sym (append-nil seq.block_table)) clean))

-- A table of hits and new blocks, of a sequence that had none.
pub Unfilled-hits :
    (bm bm' : BlockManager) (seq : Sequence) (hits table : List ℕ) (n size : ℕ) {held new : List ℕ}
    → IsValid bm held
    → bm'.block_size ≡ size
    → 0 < size
    → seq.block_table ≡ []
    → All (λ b. hash_of bm b ≢ none) hits
    → allocate_slots bm seq n hits ≡ ok (some new, record seq { block_table = table }, bm')
    → Clean bm' table (length hits * size / bm'.block_size)
Unfilled-hits bm bm' seq hits table n size {held} {new} v same pos no_table hashed e =
    let (tame, grows) =
      allocate_slots-Grown bm bm' seq (record seq { block_table = table }) n hits (some new)
        (length hits) v.ids hashed e in
    let something : some new ≢ none = λ q. absurd cc in
    let none_behind : Clean bm (seq.block_table ++ hits) (length hits) = λ i b le at_i.
      let at_i' : get_elem? hits i ≡ some b = rw no_table at at_i in
      absurd (omega (arith, get_elem?_bound hits i at_i', le)) in
    subst (λ q. Clean bm' table q)
      (sym (ap (λ q. length hits * size / q) same ∙ mul-div_cancel (length hits) size pos))
      (grows something none_behind)

-- All but one of the running sequences.
abbrev pub Beside : BlockManager → (ℕ → Sequence) → List ℕ → ℕ → Type 0
Beside bm seqs running id =
    Single bm × ((j : ℕ) → (id == j) ≡ false → 0 < count j running → Unfilled bm (seqs j))

module _ (bm : BlockManager) (seqs : ℕ → Sequence) (running : List ℕ) (id : ℕ)
    (beside : Beside bm seqs running id) where
  pub Beside-write : (x : Sequence) → Unfilled bm x → Exclusive bm (write seqs id x) running
  Beside-write x own = (
    beside.0,
    λ j h. elim (Bool-cases (id == j)) [ inl e ↦ rw e own | inr e ↦ rw e (beside.1 j e h) ],
  )

  pub Beside-away :
      {bm' : BlockManager} (x : Sequence) (running' : List ℕ)
      → Tame bm bm'
      → SameShape bm bm'
      → ((j : ℕ) → 0 < count j running' → ((id == j) ≡ false) × (0 < count j running))
      → Exclusive bm' (write seqs id x) running'
  Beside-away x running' tame shape others = (
    tame.single beside.0,
    λ j h.
        let (e, runs) = others j h in rw e (Unfilled-Tame (seqs j) tame shape (beside.1 j e runs)),
  )
