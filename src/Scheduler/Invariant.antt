-- ===== src/Scheduler/Invariant.antt =====
-- pagedllm/scheduler.py: what holds of the scheduler between the steps of `schedule` and `update`.
use paged_llm.Base.{
  ℕ, ◌+◌, ◌*◌, ◌<◌, ◌≤◌, ◌≡◌, refl, ap, List, [], ◌∷◌, ◌++◌, if◌then◌else◌, ◌==◌, length, count,
  count-append, erase, count-erase, arith, Bool-cases, inl, inr,
}
use paged_llm.Sequence.{Sequence, SequenceStatus, num_tokens}
use paged_llm.Config.{EngineConfig}
use paged_llm.BlockManager.Invariant.{IsValid, SameCount}
use paged_llm.Scheduler.Exclusive.{Exclusive}
use paged_llm.Scheduler.{Scheduler, ScheduledSequence, write}

-- The block references that the sequences of a list hold.
abbrev pub tables : (ℕ → Sequence) → List ℕ → List ℕ
tables seqs [] = []
tables seqs (id ∷ ids) = (seqs id).block_table ++ tables seqs ids

-- The tokens that scheduled items will compute for a sequence.
abbrev pub planned : ℕ → List ScheduledSequence → ℕ
planned id [] = 0
planned id (i ∷ is) = (if i.seq == id then i.num_new_tokens else 0) + planned id is

-- A running sequence has something to compute, and exactly the blocks for what it has and plans.
pub record RunningOk (c : EngineConfig) (block_size : ℕ) (seq : Sequence) (plan : ℕ) : Type 0 where
  pub status_running : seq.status ≡ SequenceStatus.running
  pub unfinished : seq.num_computed_tokens < num_tokens seq
  pub within : seq.num_computed_tokens + plan ≤ num_tokens seq
  pub covered : seq.num_computed_tokens + plan ≤ length seq.block_table * block_size
  pub tight : length seq.block_table * block_size < seq.num_computed_tokens + plan + block_size
  pub short : num_tokens seq < c.max_model_len

-- A waiting sequence holds no block and has all to compute.
pub record WaitingOk (c : EngineConfig) (seq : Sequence) : Type 0 where
  pub status_waiting : seq.status ≡ SequenceStatus.waiting
  pub no_blocks : seq.block_table ≡ []
  pub no_computed : seq.num_computed_tokens ≡ 0
  pub nonempty : 0 < num_tokens seq
  pub short : num_tokens seq < c.max_model_len

-- Each item is for a running sequence of its own, and tells whether it reaches the last token.
abbrev pub ItemsOk : (ℕ → Sequence) → List ℕ → List ScheduledSequence → Type 0
ItemsOk seqs running [] = Unit {0}
ItemsOk seqs running (i ∷ is) =
    (0 < count i.seq running)
    × (0 < i.num_new_tokens)
    × (i.needs_sampling
        ≡ ((seqs i.seq).num_computed_tokens + i.num_new_tokens == num_tokens (seqs i.seq)))
    × (planned i.seq is ≡ 0)
    × ItemsOk seqs running is

-- The invariant, with `items` scheduled and not yet processed by `update`.
pub record IsWell (s : Scheduler) (items : List ScheduledSequence) : Type 0 where
  pub valid : IsValid s.bm (tables s.seqs s.running)
  pub distinct : (id : ℕ) → count id s.running + count id s.waiting ≤ 1
  pub running_ok :
      (id : ℕ)
      → 0 < count id s.running
      → RunningOk s.config s.bm.block_size (s.seqs id) (planned id items)
  pub waiting_ok : (id : ℕ) → 0 < count id s.waiting → WaitingOk s.config (s.seqs id)
  pub items_ok : ItemsOk s.seqs s.running items
  pub exclusive : Exclusive s.bm s.seqs s.running
  pub capacity : length s.running ≤ s.config.max_num_seqs

-- A sequence of the list holds no more references than the list.
pub tables_member :
    (seqs : ℕ → Sequence) (id : ℕ) (ids : List ℕ) (b : ℕ)
    → 0 < count id ids
    → count b (seqs id).block_table ≤ count b (tables seqs ids)
tables_member seqs id [] b h = absurd (omega arith)
tables_member seqs id (x ∷ xs) b h = elim (Bool-cases (x == id)) [
  | inl e ↦
      let e' : x ≡ id = ground (arith, e) in
      omega (
        arith,
        ap (λ k. count b (seqs k).block_table) e',
        count-append b (seqs x).block_table (tables seqs xs),
      )
  | inr e ↦ omega (
    arith,
    tables_member seqs id xs b (ground (arith, e)),
    count-append b (seqs x).block_table (tables seqs xs),
  )
]

pub tables_absent :
    (seqs : ℕ → Sequence) (id : ℕ) (x : Sequence) (ids : List ℕ)
    → count id ids ≡ 0
    → tables (write seqs id x) ids ≡ tables seqs ids
tables_absent seqs id x [] h = refl
tables_absent seqs id x (y ∷ ys) h = ground (arith, tables_absent seqs id x ys)

-- The references of one sequence apart from those of the others.
pub tables_split :
    (seqs : ℕ → Sequence) (id : ℕ) (ids : List ℕ)
    → 0 < count id ids
    → SameCount (tables seqs ids) ((seqs id).block_table ++ tables seqs (erase id ids))
unfolding erase
tables_split seqs id [] h b = absurd (omega arith)
tables_split seqs id (y ∷ ys) h b = elim (Bool-cases (y == id)) [
  | inl here ↦ ground (arith, here)
  | inr there ↦ rw there (
      omega (
        arith,
        tables_split seqs id ys (ground arith) b,
        count-append b (seqs y).block_table (tables seqs ys),
        count-append b (seqs id).block_table (tables seqs (erase id ys)),
        count-append b (seqs id).block_table ((seqs y).block_table ++ tables seqs (erase id ys)),
        count-append b (seqs y).block_table (tables seqs (erase id ys)),
      ))
]

-- A write to one sequence of the list changes its references and no others.
pub tables-write :
    (seqs : ℕ → Sequence) (id : ℕ) (x : Sequence) (ids : List ℕ)
    → count id ids ≡ 1
    → SameCount (x.block_table ++ tables seqs (erase id ids)) (tables (write seqs id x) ids)
tables-write seqs id x ids h b =
    let gone : count id (erase id ids) ≡ 0 = ground (arith, count-erase id id ids) in
    let same : tables (write seqs id x) (erase id ids) ≡ tables seqs (erase id ids) =
      tables_absent seqs id x (erase id ids) gone in
    ground (arith, tables_split (write seqs id x) id ids (omega arith) b, same)

pub ItemsOk-mono :
    (seqs seqs' : ℕ → Sequence) (running running' : List ℕ) (items : List ScheduledSequence)
    → ((id : ℕ)
        → 0 < planned id items
        → 0 < count id running
        → (0 < count id running')
          × ((seqs' id).num_computed_tokens ≡ (seqs id).num_computed_tokens)
          × (num_tokens (seqs' id) ≡ num_tokens (seqs id)))
    → ItemsOk seqs running items
    → ItemsOk seqs' running' items
ItemsOk-mono seqs seqs' running running' [] f h = tt
ItemsOk-mono seqs seqs' running running' (i ∷ is) f h =
    let (here, computed, size) = f i.seq (ground arith) h.0 in
    (
      here,
      h.1,
      rw (computed, size) h.2,
      h.3,
      ItemsOk-mono seqs seqs' running running' is (λ id p q. f id (ground arith) q) h.4,
    )
