-- ===== src/Tests/Data.antt =====
-- A pool of four blocks of two tokens, and a scheduler with one running and one waiting sequence.
use paged_llm.Base.{
  ℕ, ◌+◌, refl, List, [], ◌∷◌, true, false, Option, none, some, if◌then◌else◌, ltb, ◌==◌, arith,
  lookup,
}
use paged_llm.Config.{EngineConfig}
use paged_llm.Sequence.{Sequence, SamplingParams, SequenceStatus}
use paged_llm.BlockManager.{BlockManager}
use paged_llm.BlockManager.Invariant.{IsValid}
use paged_llm.Scheduler.{Scheduler, ScheduledSequence}
use paged_llm.Scheduler.Invariant.{IsWell}

abbrev pub config : EngineConfig
config = record {
  block_size = 2;
  num_gpu_blocks = some 4;
  max_num_seqs = 4;
  max_num_batched_tokens = 4;
  max_model_len = 16;
  enable_prefix_caching = true;
  enable_chunked_prefill = true;
}

-- A hash that tells short lists of small tokens apart.
abbrev pub demo_hash : Option ℕ → List ℕ → ℕ
demo_hash none [] = 1
demo_hash (some h) [] = h + 2
demo_hash prev (t ∷ ts) = demo_hash prev ts + demo_hash prev ts + t

-- The first `n` blocks are held, once each.
abbrev pub pool : ℕ → List ℕ → BlockManager
pool n free = record {
  num_blocks = 4;
  block_size = 2;
  enable_prefix_caching = true;
  blocks = λ b. record { block_id = b; ref_count = if ltb b n then 1 else 0; block_hash = none };
  free = free;
  cached = [];
  pending_cow = [];
  num_cache_queries = 0;
  num_cache_hits = 0;
}

abbrev pub pool2 : BlockManager
pool2 = pool 2 (2 ∷ 3 ∷ [])

abbrev pub pool3 : BlockManager
pool3 = pool 3 (3 ∷ [])

pub pool2-IsValid : IsValid pool2 (0 ∷ 1 ∷ [])
unfolding lookup
pool2-IsValid = record {
  size_pos = omega arith;
  ids = λ b h. refl;
  free_count = λ b. ground arith;
  held_count = λ b. ground arith;
  cached_of_hash = λ h b l e. absurd (cc);
  hash_of_cached = λ h b e. absurd (cc);
  disabled = λ e h. refl;
}

pub pool3-IsValid : IsValid pool3 (0 ∷ 1 ∷ 2 ∷ [])
unfolding lookup
pool3-IsValid = record {
  size_pos = omega arith;
  ids = λ b h. refl;
  free_count = λ b. ground arith;
  held_count = λ b. ground arith;
  cached_of_hash = λ h b l e. absurd (cc);
  hash_of_cached = λ h b e. absurd (cc);
  disabled = λ e h. refl;
}

-- Five tokens, the first four computed.
abbrev pub decoding : Sequence
decoding = record {
  prompt_token_ids = 10 ∷ 11 ∷ 12 ∷ 13 ∷ 14 ∷ [];
  sampling_params = 0;
  token_ids = 10 ∷ 11 ∷ 12 ∷ 13 ∷ 14 ∷ [];
  status = SequenceStatus.running;
  num_computed_tokens = 4;
  block_table = 0 ∷ 1 ∷ [];
  num_cached_tokens = 0;
  num_preemptions = 0;
}

abbrev pub fresh : Sequence
fresh = record {
  prompt_token_ids = 7 ∷ 8 ∷ 9 ∷ [];
  sampling_params = 0;
  token_ids = 7 ∷ 8 ∷ 9 ∷ [];
  status = SequenceStatus.waiting;
  num_computed_tokens = 0;
  block_table = [];
  num_cached_tokens = 0;
  num_preemptions = 0;
}

abbrev pub params : SamplingParams
params = record { max_tokens = 128; ignore_eos = false; stop_token_ids = [] }

-- Sequence 0 is running, sequence 1 waits, and all others are new.
abbrev pub busy : Scheduler
busy = record {
  config = config;
  bm = pool2;
  eos_token_id = some 2;
  seqs = λ id. if id == 0 then decoding else fresh;
  params = λ p. params;
  waiting = 1 ∷ [];
  running = 0 ∷ [];
  finished = [];
  num_preemptions = 0;
}

pub busy-IsWell : IsWell busy []
busy-IsWell = record {
  valid = pool2-IsValid;
  distinct = λ id. ground arith;
  running_ok = λ id h. ground arith;
  waiting_ok = λ id h. ground arith;
  items_ok = tt;
  exclusive = (λ b h. ground arith, λ id h i b le at_i. ground (arith, le, at_i));
  capacity = omega arith;
}

abbrev pub item : ScheduledSequence
item = record { seq = 0; num_new_tokens = 1; needs_sampling = true }

-- Sequence 0 has its block for the last token.
abbrev pub scheduled : Scheduler
scheduled = record busy {
  bm = pool3;
  seqs = λ id. if id == 0 then record decoding { block_table = 0 ∷ 1 ∷ 2 ∷ [] } else fresh;
}

pub scheduled-IsWell : IsWell scheduled (item ∷ [])
scheduled-IsWell = record {
  valid = pool3-IsValid;
  distinct = λ id. ground arith;
  running_ok = λ id h. ground arith;
  waiting_ok = λ id h. ground arith;
  items_ok = (omega arith, omega arith, refl, refl, tt);
  exclusive = (λ b h. ground arith, λ id h i b le at_i. ground (arith, le, at_i));
  capacity = omega arith;
}

-- The same requests, for a model of half the length: the pool has a block to spare.
abbrev pub spare : Scheduler
spare = record busy { config = record config { max_model_len = 6 } }

pub spare-IsWell : IsWell spare []
spare-IsWell = record {
  valid = pool2-IsValid;
  distinct = λ id. ground arith;
  running_ok = λ id h. ground arith;
  waiting_ok = λ id h. ground arith;
  items_ok = tt;
  exclusive = (λ b h. ground arith, λ id h i b le at_i. ground (arith, le, at_i));
  capacity = omega arith;
}
