-- ===== src/Memory.antt =====
-- pagedllm/engine.py and pagedllm/kv_cache.py: how many blocks the cache gets.
-- The byte counts that CUDA reports, the size of an element and the product of the device's memory
-- with `gpu_memory_utilization`, a float, are parameters.
use paged_llm.Base.{
  ℕ, ◌+◌, ◌-◌, ◌*◌, ◌/◌, ◌<◌, ◌≤◌, ◌≡◌, ◌⊎◌, inl, inr, refl, Bool, true, false, not, if◌then◌else◌,
  ltb, ◌==◌, max, Result, ok, raise, runtime_error, arith, Bool-cases,
}
use paged_llm.Config.{EngineConfig}
use paged_llm.BlockManager.{BlockManager, num_blocks_for_tokens, initial, init}

-- The shape of the model, and the size of an element of its tensors.
pub record ModelShape : Type 0 where
  pub num_hidden_layers : ℕ
  pub num_key_value_heads : ℕ
  pub head_dim : ℕ
  pub element_size : ℕ

-- What the device reports; `granted` is `int(total * gpu_memory_utilization)`, and `peak` is read
-- after the dummy forward.
pub record Readings : Type 0 where
  pub on_cuda : Bool
  pub total : ℕ
  pub free : ℕ
  pub allocated : ℕ
  pub peak : ℕ
  pub granted : ℕ

abbrev pub block_bytes : ModelShape → ℕ → ℕ
block_bytes m block_size =
    2 * m.num_hidden_layers * block_size * m.num_key_value_heads * m.head_dim * m.element_size

-- The blocks of the throwaway cache of the dummy forward.
abbrev pub dummy_blocks : EngineConfig → ℕ
dummy_blocks c = num_blocks_for_tokens c.max_num_batched_tokens c.block_size

-- The terms of the budget, those that add to it and those that take from it.
abbrev pub credit : EngineConfig → ModelShape → Readings → ℕ
credit c m r = r.granted + r.free + r.allocated + dummy_blocks c * block_bytes m c.block_size

abbrev pub debit : Readings → ℕ
debit r = r.total + r.peak

-- A negative budget has a negative quotient, which is refused; the truncated one is 0 and is, too.
unfoldable pub profile_num_blocks : EngineConfig → ModelShape → Readings → Result ℕ
profile_num_blocks c m r =
    if not r.on_cuda
    then ok (max 64 (c.max_model_len * 4 / c.block_size))
    else (let num_blocks = (credit c m r - debit r) / block_bytes m c.block_size in
        if ltb num_blocks 16 then raise runtime_error else ok num_blocks)

-- A number of blocks that the block manager accepts.
abbrev pub Accepted : EngineConfig → ℕ → Type 0
Accepted c n =
    (bm : BlockManager) × (init n c.block_size c.enable_prefix_caching ≡ ok bm)
    × (bm.num_blocks ≡ n)

init_positive : (c : EngineConfig) (n : ℕ) → 16 ≤ n → Accepted c n
unfolding init
init_positive c n h =
    let some_blocks : (n == 0) ≡ false = ground arith in
    (initial n c.block_size c.enable_prefix_caching, rw some_blocks, refl)

budget_fits :
    (a b d : ℕ)
    → 0 < d
    → 16 ≤ (a - b) / d
    → (b + ((a - b) / d) * d ≤ a) × (a < b + ((a - b) / d + 1) * d)
budget_fits a b d pos h = (omega arith, omega arith)

budget_short : (a b d : ℕ) → 0 < d → (a - b) / d < 16 → a < b + 16 * d
budget_short a b d pos h = grind arith

-- What `profile_num_blocks` does, in the terms of its budget.
pub profile_num_blocks_budget :
    (c : EngineConfig) (m : ModelShape) (r : Readings)
    → 0 < block_bytes m c.block_size
    → ((r.on_cuda ≡ true)
        × (profile_num_blocks c m r ≡ raise runtime_error)
        × (credit c m r < debit r + 16 * block_bytes m c.block_size))
      ⊎ ((n : ℕ) × (profile_num_blocks c m r ≡ ok n)
          × (16 ≤ n)
          × Accepted c n
          × ((r.on_cuda ≡ false)
              ⊎ ((debit r + n * block_bytes m c.block_size ≤ credit c m r)
                  × (credit c m r < debit r + (n + 1) * block_bytes m c.block_size))))
unfolding profile_num_blocks
profile_num_blocks_budget c m r pos =
    let n = (credit c m r - debit r) / block_bytes m c.block_size in
    let cpu = max 64 (c.max_model_len * 4 / c.block_size) in
    elim (Bool-cases r.on_cuda) [
      | inr off ↦
          let big : 16 ≤ cpu = omega arith in
          inr (cpu, rw off, big, init_positive c cpu big, inl off)
      | inl on ↦ elim (Bool-cases (ltb n 16)) [
        | inl short ↦
            inl (on, rw (on, short), budget_short (credit c m r) (debit r) _ pos (ground arith))
        | inr enough ↦
            let big : 16 ≤ n = ground arith in
            inr (
              n,
              rw (on, enough),
              big,
              init_positive c n big,
              inr (budget_fits (credit c m r) (debit r) _ pos big),
            )
      ]
    ]

-- The bytes of the tensors of a cache: keys and values in every layer, of `n` blocks each.
abbrev pub cache_bytes : ModelShape → (block_size n : ℕ) → ℕ
cache_bytes m block_size n =
    let tensor = n * block_size * (m.num_key_value_heads * m.head_dim) * m.element_size in
    m.num_hidden_layers * (tensor + tensor)

cache_bytes-eq : (m : ModelShape) (bs n : ℕ) → cache_bytes m bs n ≡ n * block_bytes m bs
cache_bytes-eq m bs n = omega arith

-- The cache fits in what the configuration grants of the memory, and no more blocks would. Let a
-- block of the cache have at least one byte, let others hold what neither is free nor allocated
-- here, and let the peak of the dummy forward be its cache, of the blocks that the token budget
-- takes, and what else is used. Then `profile_num_blocks` either raises RuntimeError, on a CUDA
-- device where the others, what is used and the tensors of 16 blocks are more than what is granted;
-- or it returns at least 16 blocks, a number that the constructor of the block manager accepts, and
-- on a CUDA device the others, what is used and the tensors of these blocks are not more than what
-- is granted, but with one block more they are.
pub profile_num_blocks_lem :
    (c : EngineConfig) (m : ModelShape) (r : Readings) (others used : ℕ)
    → 0 < cache_bytes m c.block_size 1
    → others + r.free + r.allocated ≡ r.total
    → used
        + cache_bytes m c.block_size ((c.max_num_batched_tokens + c.block_size - 1) / c.block_size)
      ≡ r.peak
    → ((r.on_cuda ≡ true)
        × (profile_num_blocks c m r ≡ raise runtime_error)
        × (r.granted < others + used + cache_bytes m c.block_size 16))
      ⊎ ((n : ℕ) × (profile_num_blocks c m r ≡ ok n)
          × (16 ≤ n)
          × Accepted c n
          × ((r.on_cuda ≡ false)
              ⊎ ((others + used + cache_bytes m c.block_size n ≤ r.granted)
                  × (r.granted < others + used + cache_bytes m c.block_size (n + 1)))))
profile_num_blocks_lem c m r others used pos memory peak =
    let bs = c.block_size in
    let dummy = cache_bytes-eq m bs (dummy_blocks c) in
    elim (profile_num_blocks_budget c m r (omega (arith, pos, cache_bytes-eq m bs 1))) [
      | inl (on, e, short) ↦
          inl (on, e, omega (arith, short, memory, peak, dummy, cache_bytes-eq m bs 16))
      | inr (n, e, enough, accepted, inl off) ↦ inr (n, e, enough, accepted, inl off)
      | inr (n, e, enough, accepted, inr (fits, full)) ↦ inr (
        n,
        e,
        enough,
        accepted,
        inr (
          omega (arith, fits, memory, peak, dummy, cache_bytes-eq m bs n),
          omega (arith, full, memory, peak, dummy, cache_bytes-eq m bs (n + 1)),
        ),
      )
    ]
