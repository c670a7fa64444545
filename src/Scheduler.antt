-- ===== src/Scheduler.antt =====
-- pagedllm/scheduler.py: the scheduler's state and its queues.
-- `seqs` is the heap of Sequence objects by `seq_id`, and `params` that of SamplingParams objects.
-- The queues hold references, that is, ids; `==` and `is` on sequences are equality of ids.
pub mod Schedule
pub mod Update
pub mod Exclusive
pub mod Invariant
pub mod Preempt
pub mod Order
pub mod Cramped
pub mod Room
pub mod Eviction
pub mod Visit
pub mod Running
pub mod Admission
pub mod Joining
pub mod Queue
pub mod Plan
pub mod Retire
pub mod Advance
pub mod Unhashed
pub mod Progress
pub mod Requests
pub mod Limits
use paged_llm.Base.{
  ℕ, zero, suc, ◌+◌, ◌-◌, List, [], ◌∷◌, ◌++◌, Bool, true, false, ◌&&◌, not, Option, none, some,
  if◌then◌else◌, ltb, leb, ◌==◌, length, contains, remove, max, Result, ok, raise, value_error,
  ◌>>=◌,
}
use paged_llm.Sequence.{
  Sequence, SamplingParams, SequenceStatus, num_prompt_tokens, num_tokens, reset_for_recompute,
}
use paged_llm.Config.{EngineConfig}
use paged_llm.BlockManager.{BlockManager}
use paged_llm.BlockManager.Slots.{free}

pub record ScheduledSequence : Type 0 where
  pub seq : ℕ
  pub num_new_tokens : ℕ
  pub needs_sampling : Bool

-- The constructor: whether the step computes the last known token is fixed here.
abbrev pub new_scheduled : ℕ → Sequence → ℕ → ScheduledSequence
new_scheduled id seq n = record {
  seq = id;
  num_new_tokens = n;
  needs_sampling = seq.num_computed_tokens + n == num_tokens seq;
}

pub record SchedulerOutput : Type 0 where
  pub scheduled : List ScheduledSequence
  pub preempted : List ℕ
  pub num_prefill_tokens : ℕ
  pub num_decode_tokens : ℕ

abbrev pub empty_output : SchedulerOutput
empty_output = record {
  scheduled = [];
  preempted = [];
  num_prefill_tokens = 0;
  num_decode_tokens = 0;
}

abbrev pub is_empty : SchedulerOutput → Bool
is_empty out = length out.scheduled == 0

abbrev pub total_tokens : SchedulerOutput → ℕ
total_tokens out = out.num_prefill_tokens + out.num_decode_tokens

pub record Scheduler : Type 0 where
  pub config : EngineConfig
  pub bm : BlockManager
  pub eos_token_id : Option ℕ
  pub seqs : ℕ → Sequence
  pub params : ℕ → SamplingParams
  pub waiting : List ℕ
  pub running : List ℕ
  pub finished : List ℕ
  pub num_preemptions : ℕ

-- An object of a heap, mutated in place.
abbrev pub write {ℓ} : {A : Type ℓ} → (ℕ → A) → ℕ → A → ℕ → A
write heap id a j = if id == j then a else heap j

-- The clamp of `max_tokens` writes to the SamplingParams object that the sequence refers to.
unfoldable pub clamp_params : Scheduler → Sequence → ℕ → SamplingParams
clamp_params s seq =
    let p = s.params seq.sampling_params in
    if ltb s.config.max_model_len (num_prompt_tokens seq + p.max_tokens)
    then write s.params seq.sampling_params
        (record p { max_tokens = max 1 (s.config.max_model_len - num_prompt_tokens seq) })
    else s.params

unfoldable pub add : Scheduler → ℕ → Result Scheduler
unfolding clamp_params
add s id =
    let seq = s.seqs id in
    if leb s.config.max_model_len (num_prompt_tokens seq)
    then raise value_error
    else if not s.config.enable_chunked_prefill
        && ltb s.config.max_num_batched_tokens (num_prompt_tokens seq)
    then raise value_error
    else ok (record s {
      params = clamp_params s seq;
      seqs = write s.seqs id (record seq { status = SequenceStatus.waiting });
      waiting = s.waiting ++ id ∷ [];
    })

-- The sequence, out of its queue, gives back its blocks.
unfoldable pub retire_aborted : Scheduler → ℕ → Result Scheduler
unfolding free
retire_aborted s id = do
  (seq, bm) ← free s.bm (s.seqs id)
  ok (record s {
    bm = bm;
    seqs = write s.seqs id (record seq { status = SequenceStatus.finished_aborted });
    finished = s.finished ++ id ∷ [];
  })

unfoldable pub abort : Scheduler → ℕ → Result Scheduler
unfolding retire_aborted remove
abort s id =
    if contains id s.waiting
    then (do
      waiting ← remove value_error id s.waiting
      retire_aborted (record s { waiting = waiting }) id)
    else if contains id s.running
    then (do
      running ← remove value_error id s.running
      retire_aborted (record s { running = running }) id)
    else ok s

abbrev pub num_unfinished : Scheduler → ℕ
num_unfinished s = length s.waiting + length s.running

abbrev pub has_unfinished : Scheduler → Bool
has_unfinished s = ltb 0 (num_unfinished s)

unfoldable pub preempt : Scheduler → SchedulerOutput → ℕ → Result (Scheduler × SchedulerOutput)
unfolding free remove
preempt s out id = do
  running ← remove value_error id s.running
  (seq, bm) ← free s.bm (s.seqs id)
  ok (
    record s {
      running = running;
      bm = bm;
      seqs = write s.seqs id (reset_for_recompute seq);
      waiting = id ∷ s.waiting;
      num_preemptions = s.num_preemptions + 1;
    },
    record out { preempted = out.preempted ++ id ∷ [] },
  )
