-- ===== src/Engine.antt =====
-- pagedllm/engine.py: `LLMEngine`, its requests and its step.
-- `world` is the state of the model's side. The step times are wall-clock readings and have no
-- field; the text of a RequestOutput is the tokenizer's.
pub mod Loop
pub mod Carried
pub mod Advance
pub mod Finish
pub mod Adding
pub mod Collect
pub mod Generate
pub mod Startup
use paged_llm.Base.{
  ℕ, zero, suc, ◌+◌, List, [], ◌∷◌, ◌++◌, map, Bool, true, false, Option, if◌then◌else◌, length,
  contains, remove, lookup, Dict, Result, ok, raise, key_error, out_of_fuel, ◌>>=◌,
}
use paged_llm.Sequence.{SequenceStatus, new_sequence, output_token_ids}
use paged_llm.Scheduler.{
  Scheduler, SchedulerOutput, ScheduledSequence, write, is_empty, add, abort, has_unfinished,
}
use paged_llm.Scheduler.Schedule.{schedule}
use paged_llm.Scheduler.Update.{update}
use paged_llm.Runner.{Backend, run}

pub record StepOutput : Type 0 where
  pub seq_id : ℕ
  pub new_token : Option ℕ
  pub finished : Bool

pub data FinishReason : Type 0 where
  stop by_length by_abort : FinishReason

pub record RequestOutput : Type 0 where
  pub seq_id : ℕ
  pub prompt_token_ids : List ℕ
  pub token_ids : List ℕ
  pub finish_reason : FinishReason
  pub num_cached_tokens : ℕ
  pub num_preemptions : ℕ

pub record EngineStats : Type 0 where
  pub num_steps : ℕ
  pub num_prefill_tokens : ℕ
  pub num_decode_tokens : ℕ
  pub num_preemptions : ℕ

-- `next_id` is the counter of `sequence.py`.
pub record Engine (W : Type 0) : Type 0 where
  pub scheduler : Scheduler
  pub world : W
  pub stats : EngineStats
  pub requests : List ℕ
  pub next_id : ℕ

-- The statuses of a finished sequence have a reason; any other is a KeyError.
abbrev pub reason_of : SequenceStatus → Result FinishReason
reason_of SequenceStatus.finished_stopped = ok stop
reason_of SequenceStatus.finished_length = ok by_length
reason_of SequenceStatus.finished_aborted = ok by_abort
reason_of SequenceStatus.waiting = raise key_error
reason_of SequenceStatus.running = raise key_error

abbrev pub add_step : EngineStats → SchedulerOutput → EngineStats
add_step st out = record {
  num_steps = st.num_steps + 1;
  num_prefill_tokens = st.num_prefill_tokens + out.num_prefill_tokens;
  num_decode_tokens = st.num_decode_tokens + out.num_decode_tokens;
  num_preemptions = st.num_preemptions + length out.preempted;
}

abbrev pub step_output : Dict → List ℕ → ScheduledSequence → StepOutput
step_output sampled finished item = record {
  seq_id = item.seq;
  new_token = lookup item.seq sampled;
  finished = contains item.seq finished;
}

-- The argument `sampling_params` of `generate`, as references to SamplingParams objects: one for all
-- prompts (the caller's, or the default one that the call makes), or a list of them.
pub data SamplingArgument : Type 0 where
  shared : ℕ → SamplingArgument
  each : List ℕ → SamplingArgument

-- `zip(prompts, sampling_params)`, which ends with the shorter list; one object is repeated.
unfoldable pub zip_params : List (List ℕ) → SamplingArgument → List (List ℕ × ℕ)
zip_params [] argument = []
zip_params (p ∷ ps) (shared ref) = (p, ref) ∷ zip_params ps (shared ref)
zip_params (p ∷ ps) (each []) = []
zip_params (p ∷ ps) (each (ref ∷ refs)) = (p, ref) ∷ zip_params ps (each refs)

module _ {W : Type 0} where
  -- The prompt is a list of tokens; `params` refers to its SamplingParams object.
  unfoldable pub add_request : Engine W → List ℕ → ℕ → Result (ℕ × Engine W)
  unfolding new_sequence add
  add_request e prompt params = do
    seq ← new_sequence prompt params
    let id = e.next_id
    s ← add (record e.scheduler { seqs = write e.scheduler.seqs id seq }) id
    ok (id, record e { scheduler = s; requests = e.requests ++ id ∷ []; next_id = id + 1 })

  unfoldable pub abort_request : Engine W → ℕ → Result (Engine W)
  unfolding abort
  abort_request e id = do s ← abort e.scheduler id; ok (record e { scheduler = s })

  unfoldable pub to_output : Engine W → ℕ → Result RequestOutput
  to_output e id = do
    let seq = e.scheduler.seqs id
    reason ← reason_of seq.status
    ok (record {
      seq_id = id;
      prompt_token_ids = seq.prompt_token_ids;
      token_ids = output_token_ids seq;
      finish_reason = reason;
      num_cached_tokens = seq.num_cached_tokens;
      num_preemptions = seq.num_preemptions;
    })

  module _ (hash : Option ℕ → List ℕ → ℕ) (backend : Backend W) where
    -- An empty output ends the step at once.
    unfoldable pub step : Engine W → Result (List StepOutput × Engine W)
    unfolding schedule run update
    step e = do
      (s1, out) ← schedule hash e.scheduler
      if is_empty out then ok ([], record e { scheduler = s1 }) else (do
        (sampled, world, s2) ← run backend e.world s1 out
        (s3, finished) ← update hash sampled s2 out
        ok (
          map (step_output sampled finished) out.scheduled,
          record e { scheduler = s3; world = world; stats = add_step e.stats out },
        ))

    -- `while self.has_unfinished_requests: self.step()`, for at most `fuel` steps.
    unfoldable pub run_steps : ℕ → Engine W → Result (Engine W)
    unfolding step
    run_steps zero e = raise out_of_fuel
    run_steps (suc fuel) e = elim (has_unfinished e.scheduler) [
      | false ↦ ok e
      | true ↦ do (_, e') ← step e; run_steps fuel e'
    ]

  -- `self._seqs.pop(i)` and `_to_output`, for each id in order.
  unfoldable pub collect : Engine W → List ℕ → Result (List RequestOutput × Engine W)
  unfolding remove to_output
  collect e [] = ok ([], e)
  collect e (id ∷ ids) = do
    requests ← remove key_error id e.requests
    let e1 = record e { requests = requests }
    out ← to_output e1 id
    (outs, e2) ← collect e1 ids
    ok (out ∷ outs, e2)

  -- `[self.add_request(p, sp) for p, sp in zip(prompts, sampling_params)]`
  unfoldable pub add_requests : Engine W → List (List ℕ × ℕ) → Result (List ℕ × Engine W)
  unfolding add_request
  add_requests e [] = ok ([], e)
  add_requests e ((prompt, params) ∷ pairs) = do
    (id, e1) ← add_request e prompt params
    (ids, e2) ← add_requests e1 pairs
    ok (id ∷ ids, e2)

  -- The loop of `generate` is given fuel.
  unfoldable pub generate :
      (Option ℕ → List ℕ → ℕ)
      → Backend W
      → ℕ
      → Engine W
      → List (List ℕ)
      → SamplingArgument
      → Result (List RequestOutput × Engine W)
  unfolding add_requests run_steps collect
  generate hash backend fuel e prompts argument = do
    (ids, e1) ← add_requests e (zip_params prompts argument)
    e2 ← run_steps hash backend fuel e1
    collect e2 ids
