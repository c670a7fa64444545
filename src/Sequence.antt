-- ===== src/Sequence.antt =====
-- pagedllm/sequence.py: a request, its sampling parameters and its status.
-- `arrival_time` is a wall-clock reading that no code reads back, and has no field here. The
-- floats `temperature` and `top_p` and the number `top_k` are read by the sampler only.
use paged_llm.Base.{
  ℕ, ◌+◌, ◌-◌, List, [], ◌∷◌, ◌++◌, Bool, true, false, leb, length, drop, Result, ok, raise,
  value_error,
}

pub record SamplingParams : Type 0 where
  pub max_tokens : ℕ
  pub ignore_eos : Bool
  pub stop_token_ids : List ℕ

pub data SequenceStatus : Type 0 where
  waiting running finished_stopped finished_length finished_aborted : SequenceStatus

-- `SequenceStatus.finished`
abbrev pub status_finished : SequenceStatus → Bool
status_finished SequenceStatus.finished_stopped = true
status_finished SequenceStatus.finished_length = true
status_finished SequenceStatus.finished_aborted = true
status_finished SequenceStatus.waiting = false
status_finished SequenceStatus.running = false

-- A sequence is referred to by its `seq_id`, which the counter makes unique and by which `==`
-- compares: the heap of the scheduler is indexed by it, and it is no field here.
-- `sampling_params` is a reference: the number of a SamplingParams object, which several
-- sequences may share.
pub record Sequence : Type 0 where
  pub prompt_token_ids : List ℕ
  pub sampling_params : ℕ
  pub token_ids : List ℕ
  pub status : SequenceStatus
  pub num_computed_tokens : ℕ
  pub block_table : List ℕ
  pub num_cached_tokens : ℕ
  pub num_preemptions : ℕ

-- The constructor with `__post_init__`: an empty prompt is refused.
unfoldable pub new_sequence : List ℕ → ℕ → Result Sequence
new_sequence [] params = raise value_error
new_sequence (t ∷ ts) params = ok (record {
  prompt_token_ids = t ∷ ts;
  sampling_params = params;
  token_ids = t ∷ ts;
  status = SequenceStatus.waiting;
  num_computed_tokens = 0;
  block_table = [];
  num_cached_tokens = 0;
  num_preemptions = 0;
})

abbrev pub num_prompt_tokens : Sequence → ℕ
num_prompt_tokens s = length s.prompt_token_ids

abbrev pub num_tokens : Sequence → ℕ
num_tokens s = length s.token_ids

abbrev pub num_generated_tokens : Sequence → ℕ
num_generated_tokens s = length s.token_ids - length s.prompt_token_ids

abbrev pub num_uncomputed_tokens : Sequence → ℕ
num_uncomputed_tokens s = num_tokens s - s.num_computed_tokens

abbrev pub output_token_ids : Sequence → List ℕ
output_token_ids s = drop (length s.prompt_token_ids) s.token_ids

abbrev pub is_finished : Sequence → Bool
is_finished s = status_finished s.status

abbrev pub is_prefill_done : Sequence → Bool
is_prefill_done s = leb (num_prompt_tokens s) s.num_computed_tokens

abbrev pub append_token : Sequence → ℕ → Sequence
append_token s token = record s { token_ids = s.token_ids ++ token ∷ [] }

abbrev pub reset_for_recompute : Sequence → Sequence
reset_for_recompute s = record s {
  num_computed_tokens = 0;
  block_table = [];
  status = SequenceStatus.waiting;
  num_preemptions = s.num_preemptions + 1;
}
