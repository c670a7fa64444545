-- ===== src/Tests/Shared.antt =====
-- Two running sequences that share a cached block, and the theorems on a step of both.
use paged_llm.Base.{
  ℕ, zero, suc, ◌≡◌, ◌<◌, ◌≤◌, ◌/◌, get_elem?, refl, List, [], ◌∷◌, true, some, none, if◌then◌else◌,
  ◌==◌, ltb, ok, lookup, Bool-cases, inl, inr, arith,
}
use paged_llm.Sequence.{Sequence, SequenceStatus}
use paged_llm.BlockManager.{BlockManager}
use paged_llm.BlockManager.Invariant.{IsValid}
use paged_llm.BlockManager.Private.{hash_of}
use paged_llm.Scheduler.{Scheduler, SchedulerOutput, ScheduledSequence, empty_output}
use paged_llm.Scheduler.Invariant.{IsWell, tables}
use paged_llm.KvCache.{replicate, gather}
use paged_llm.Runner.{Inputs, build_inputs}
use paged_llm.Runner.Owners.{Laid, build_inputs-Laid}
use paged_llm.Llama.{Llama, forward}
use paged_llm.Llama.Backend.{reference_backend, reference_backend-IsPagedAttention}
use paged_llm.Llama.Stack.{HoldsAt}
use paged_llm.Llama.Step.{Served, metadata_of, sessions, forward-build_inputs}
use paged_llm.Tests.Functions.{functions, functions-Laws}
use paged_llm.Tests.Data.{config, params}
use paged_llm.Tests.Model.{floats, attend, attend_keeps, llama, tensor, cache}

-- Block 0 is cached and held twice, blocks 1 and 2 once.
abbrev shared : BlockManager
shared = record {
  num_blocks = 4;
  block_size = 2;
  enable_prefix_caching = true;
  blocks = λ b. record {
    block_id = b;
    ref_count = if b == 0 then 2 else if ltb b 3 then 1 else 0;
    block_hash = if b == 0 then some 9 else none;
  };
  free = 3 ∷ [];
  cached = (9, 0) ∷ [];
  pending_cow = [];
  num_cache_queries = 0;
  num_cache_hits = 0;
}

shared-IsValid : IsValid shared (0 ∷ 1 ∷ 0 ∷ 2 ∷ [])
unfolding lookup
shared-IsValid = record {
  size_pos = omega arith;
  ids = λ b h. refl;
  free_count = λ b. ground arith;
  held_count = λ b. ground arith;
  cached_of_hash = λ h b l e. ground (arith, e);
  hash_of_cached = λ h b e. ground (arith, e);
  disabled = λ e h. ground (arith, e);
}

abbrev twin : ℕ → List ℕ → Sequence
twin last table = record {
  prompt_token_ids = 1 ∷ 3 ∷ last ∷ [];
  sampling_params = 0;
  token_ids = 1 ∷ 3 ∷ last ∷ [];
  status = SequenceStatus.running;
  num_computed_tokens = 2;
  block_table = table;
  num_cached_tokens = 0;
  num_preemptions = 0;
}

abbrev twins : Scheduler
twins = record {
  config = config;
  bm = shared;
  eos_token_id = none;
  seqs = λ id. if id == 0 then twin 2 (0 ∷ 1 ∷ []) else twin 0 (0 ∷ 2 ∷ []);
  params = λ p. params;
  waiting = [];
  running = 0 ∷ 1 ∷ [];
  finished = [];
  num_preemptions = 0;
}

abbrev both : List ScheduledSequence
both =
    record { seq = 0; num_new_tokens = 1; needs_sampling = true }
    ∷ record { seq = 1; num_new_tokens = 1; needs_sampling = true }
    ∷ []

last_of_two : (x i b : ℕ) → 1 ≤ i → get_elem? (0 ∷ x ∷ []) i ≡ some b → x ≡ b
last_of_two x zero b le at_i = absurd (omega (arith, le))
last_of_two x (suc zero) b le at_i = cc
last_of_two x (suc (suc i)) b le at_i = absurd cc

twin-Unfilled :
    (last x i b : ℕ)
    → 0 < x
    → 2 / 2 ≤ i
    → get_elem? (twin last (0 ∷ x ∷ [])).block_table i ≡ some b
    → hash_of shared b ≡ none
twin-Unfilled last x i b pos le at_i =
    let same = last_of_two x i b (omega (arith, le)) at_i in ground (arith, same, pos)

twins-IsWell : IsWell twins both
twins-IsWell = record {
  valid = shared-IsValid;
  distinct = λ id. ground arith;
  running_ok = λ id h. ground arith;
  waiting_ok = λ id h. ground arith;
  items_ok = (omega arith, omega arith, refl, refl, (omega arith, omega arith, refl, refl, tt));
  exclusive = (
    λ b h. ground (arith, h),
    λ id h i b le at_i. elim (Bool-cases (id == 0)) [
      | inl e ↦ twin-Unfilled 2 1 i b (omega arith) (rw e at le) (rw e at at_i)
      | inr e ↦ twin-Unfilled 0 2 i b (omega arith) (rw e at le) (rw e at at_i)
    ],
  );
  capacity = omega arith;
}

abbrev output : SchedulerOutput
output = record empty_output { scheduled = both; num_decode_tokens = 2 }

build_inputs-Laid_example :
    (inputs : Inputs) × (build_inputs twins output ≡ ok inputs) × Laid twins both inputs
build_inputs-Laid_example = build_inputs-Laid twins output twins-IsWell (omega arith)

-- The positions of the configuration have rows in the tables of the rotary embedding.
abbrev long : Llama ℕ ℕ
long = record llama { cos = replicate 16 (1 ∷ 2 ∷ []); sin = replicate 16 (2 ∷ 1 ∷ []) }

-- What the cache holds of each sequence.
abbrev held : ℕ → ℕ → List (List (List ℕ))
held id j = gather (functions []) 2 tensor (twins.seqs id).block_table 2

cache_held :
    (j : ℕ)
    → j < 1
    → HoldsAt floats attend attend_keeps long
        (functions [])
        (λ t slot. t slot)
        shared
        (functions-Laws [] 4)
        (tables twins.seqs twins.running)
        (omega arith)
        (reference_backend floats attend attend_keeps long (functions []) 2)
        (reference_backend-IsPagedAttention floats attend attend_keeps long (functions []) 2)
        cache
        j
        (λ x. x.part.start)
        (λ x. x)
        (sessions floats attend attend_keeps long
          (functions [])
          (λ t slot. t slot)
          twins
          output
          twins-IsWell
          (functions-Laws [] 4)
          (reference_backend floats attend attend_keeps long (functions []) 2)
          (reference_backend-IsPagedAttention floats attend attend_keeps long (functions []) 2)
          held
          held)
cache_held zero lt = (tensor, tensor, refl, refl, ((refl, refl), ((refl, refl), tt)))
cache_held (suc j) lt = absurd (omega (arith, lt))

forward-build_inputs_example :
    (inputs : Inputs) × (build_inputs twins output ≡ ok inputs)
    × Served floats attend attend_keeps long
        (functions [])
        (λ t slot. t slot)
        twins
        output
        twins-IsWell
        (functions-Laws [] 4)
        (reference_backend floats attend attend_keeps long (functions []) 2)
        (reference_backend-IsPagedAttention floats attend attend_keeps long (functions []) 2)
        held
        held
        cache
        (forward floats
          (functions [])
          (reference_backend floats attend attend_keeps long (functions []) 2)
          long
          inputs.input_ids
          inputs.positions
          cache
          (metadata_of inputs)
          inputs.logits_idx)
forward-build_inputs_example =
    forward-build_inputs floats attend attend_keeps long (functions []) (λ t slot. t slot) twins
      output twins-IsWell (functions-Laws [] 4)
      (reference_backend floats attend attend_keeps long (functions []) 2)
      (reference_backend-IsPagedAttention floats attend attend_keeps long (functions []) 2) held
      held cache (omega arith) (omega arith, (omega arith, tt)) (omega arith) (omega arith)
      cache_held
