-- ===== src/Engine/Startup.antt =====
-- pagedllm/engine.py and pagedllm/scheduler.py: the constructors, and an engine from its configuration to
-- its outputs. Of the constructor of `LLMEngine` this is what it makes of the configuration; the model,
-- the tokenizer and the device are parameters, and `world` is the model's side for a number of blocks.
use Prim.Native.Nat.{bit_and}
use paged_llm.Base.{
  ℕ, ◌+◌, ◌-◌, ◌*◌, ◌/◌, ◌<◌, ◌≤◌, ◌≡◌, ◌≢◌, ◌⊎◌, subst, mul_mono, List, [], true, false, Option,
  none, some, if◌then◌else◌, ltb, ◌==◌, length, max, Result, ok, ◌>>=◌, arith,
}
use paged_llm.Config.{EngineConfig, check_config}
use paged_llm.Sequence.{Sequence, SamplingParams}
use paged_llm.BlockManager.{BlockManager, init, initial}
use paged_llm.BlockManager.Sequences.{initial-IsValid}
use paged_llm.Scheduler.{Scheduler}
use paged_llm.Scheduler.Invariant.{IsWell}
use paged_llm.Scheduler.Order.{line}
use paged_llm.Runner.{Backend}
use paged_llm.Runner.Tokens.{OneEach}
use paged_llm.Memory.{ModelShape, Readings, block_bytes, credit, debit, profile_num_blocks}
use paged_llm.Engine.{Engine, SamplingArgument, zip_params, generate}
use paged_llm.Engine.Adding.{Fresh, Servable}
use paged_llm.Engine.Generate.{Serves, generate-Serves}

-- `Scheduler(config, block_manager, eos_token_id)`, with the heaps of the objects that there are.
abbrev pub new_scheduler :
    EngineConfig → BlockManager → Option ℕ → (ℕ → Sequence) → (ℕ → SamplingParams) → Scheduler
new_scheduler c bm eos seqs params = record {
  config = c;
  bm = bm;
  eos_token_id = eos;
  seqs = seqs;
  params = params;
  waiting = [];
  running = [];
  finished = [];
  num_preemptions = 0;
}

-- `cfg.num_gpu_blocks or self._profile_num_blocks()`
abbrev pub num_blocks_of : EngineConfig → ModelShape → Readings → Result ℕ
num_blocks_of c m r = elim c.num_gpu_blocks [
  | none ↦ profile_num_blocks c m r
  | some n ↦ if n == 0 then profile_num_blocks c m r else ok n
]

module _ {W : Type 0} (m : ModelShape) (r : Readings) (eos : Option ℕ) (seqs : ℕ → Sequence)
    (params : ℕ → SamplingParams) (world : ℕ → W) (next_id : ℕ) where
  -- The parts of an engine, for its block manager and number of blocks.
  abbrev pub engine_with : EngineConfig → BlockManager → ℕ → Engine W
  engine_with c bm n = record {
    scheduler = new_scheduler c bm eos seqs params;
    world = world n;
    stats = record {
      num_steps = 0;
      num_prefill_tokens = 0;
      num_decode_tokens = 0;
      num_preemptions = 0;
    };
    requests = [];
    next_id = next_id;
  }

  unfoldable pub new_engine : EngineConfig → Result (Engine W)
  unfolding check_config init
  new_engine c = do
    cfg ← check_config c
    n ← num_blocks_of cfg m r
    bm ← init n cfg.block_size cfg.enable_prefix_caching
    ok (engine_with cfg bm n)

  -- An engine with a new block manager.
  abbrev pub started : EngineConfig → ℕ → Engine W
  started c n = engine_with c (initial n c.block_size c.enable_prefix_caching) n

  started-IsWell : (c : EngineConfig) (n : ℕ) → 0 < c.block_size → IsWell (started c n).scheduler []
  started-IsWell c n pos = record {
    valid = initial-IsValid n c.block_size c.enable_prefix_caching pos;
    distinct = λ id. omega arith;
    running_ok = λ id h. absurd (omega (arith, h));
    waiting_ok = λ id h. absurd (omega (arith, h));
    items_ok = tt;
    exclusive = (
      λ b h.
          omega (arith, (initial-IsValid n c.block_size c.enable_prefix_caching pos).held_count b),
      λ id h. absurd (omega (arith, h)),
    );
    capacity = omega arith;
  }

  -- Why the configuration is refused.
  abbrev pub Refused : EngineConfig → Type 0
  Refused c =
      (bit_and c.block_size (c.block_size - 1) ≢ 0) ⊎ (c.max_num_batched_tokens < c.block_size)

  -- The engine as it starts.
  abbrev pub Starts : EngineConfig → Result (Engine W) → Type 0
  Starts c result =
      (e : Engine W) × (n : ℕ) × (result ≡ ok e)
      × (0 < n)
      × (e.scheduler.config ≡ c)
      × IsWell e.scheduler []
      × (line e.scheduler ≡ [])
      × (length e.scheduler.bm.free ≡ n)
      × Fresh e

  abbrev pub Short : EngineConfig → Type 0
  Short c = (r.on_cuda ≡ true) × (credit c m r < debit r + 16 * block_bytes m c.block_size)

-- Off CUDA, the profile gives a block more than the longest sequence takes.
cpu_room : (len bs : ℕ) → 0 < bs → len + bs ≤ max 64 (len * 4 / bs) * bs
cpu_room len bs pos =
    let q = len * 4 / bs in
    let m = max 64 q in
    let small = mul_mono 64 m bs (omega arith) in
    let large = mul_mono q m bs (omega arith) in
    let quotient : len * 4 < q * bs + bs = omega (arith, pos) in
    omega (arith, small, large, quotient, pos)

module _ {W : Type 0} (m : ModelShape) (r : Readings) (eos : Option ℕ) (seqs : ℕ → Sequence)
    (params : ℕ → SamplingParams) (world : ℕ → W) (next_id : ℕ) (hash : Option ℕ → List ℕ → ℕ)
    (backend : Backend W) (one : OneEach backend) where
  -- From the configuration to the outputs. If the block size is a power of two and not more than
  -- the token budget, at least one sequence may run, prefills are cut into chunks, the number of
  -- blocks is not given, the device is not CUDA, the sampler returns one token for each of its
  -- parameters, and each prompt that is paired with sampling parameters is not empty and shorter
  -- than the model's length, then `new_engine` returns an engine, and with more fuel than twice the
  -- model's length for each pair and once more, `generate` on it serves the pairs: it returns one
  -- output for each, in their order, with the prompt of the pair and the next ids, and leaves the
  -- engine idle and ready for more.
  pub new_engine-generate :
      (c : EngineConfig) (fuel : ℕ) (prompts : List (List ℕ)) (argument : SamplingArgument)
      → 0 < c.block_size
      → bit_and c.block_size (c.block_size - 1) ≡ 0
      → c.block_size ≤ c.max_num_batched_tokens
      → 0 < c.max_num_seqs
      → c.enable_chunked_prefill ≡ true
      → c.num_gpu_blocks ≡ none
      → r.on_cuda ≡ false
      → Servable c.max_model_len (zip_params prompts argument)
      → (length (zip_params prompts argument) + 1) * (2 * c.max_model_len) < fuel
      → (e : Engine W) × (new_engine m r eos seqs params world next_id c ≡ ok e)
        × Serves hash backend one e
            (zip_params prompts argument)
            (generate hash backend fuel e prompts argument)
  unfolding new_engine check_config init profile_num_blocks
  new_engine-generate c fuel prompts argument pos power large some_seqs chunks profiles cpu fit
        enough =
      let n = max 64 (c.max_model_len * 4 / c.block_size) in
      let e : Engine W = started m r eos seqs params world next_id c n in
      let even : (bit_and c.block_size (c.block_size - 1) == 0) ≡ true = ground (arith, power) in
      let fits : ltb c.max_num_batched_tokens c.block_size ≡ false = ground (arith, large) in
      let checked : check_config c ≡ ok c = rw (even, fits) in
      let found : num_blocks_of c m r ≡ ok n = rw (profiles, cpu) in
      let not_zero : (n == 0) ≡ false = ground arith in
      let asked = length (zip_params prompts argument) in
      let more : asked + 1 ≡ 0 + asked + 1 = omega arith in
      (
        e,
        rw (checked, found, not_zero),
        generate-Serves hash backend one fuel e prompts argument
            (started-IsWell m r eos seqs params world next_id c n pos)
            (record {
              budget = omega (arith, pos, large);
              seqs = some_seqs;
              chunks = chunks;
              room = cpu_room c.max_model_len c.block_size pos;
            })
            (λ j h. omega arith) fit (subst (λ k. k * (2 * c.max_model_len) < fuel) more enough),
      )
