-- ===== src/Config.antt =====
-- pagedllm/config.py: the engine's configuration and its check.
-- `gpu_memory_utilization`, `dtype`, `device` and `seed` are handed to the libraries only.
use Prim.Native.Nat.{bit_and}
use paged_llm.Base.{
  ℕ, ◌-◌, Bool, Option, ltb, ◌==◌, Result, ok, raise, value_error, if◌then◌else◌, not,
}

pub record EngineConfig : Type 0 where
  pub block_size : ℕ
  pub num_gpu_blocks : Option ℕ
  pub max_num_seqs : ℕ
  pub max_num_batched_tokens : ℕ
  pub max_model_len : ℕ
  pub enable_prefix_caching : Bool
  pub enable_chunked_prefill : Bool

-- `__post_init__`. In Python `0 & -1` is 0, and so is this at 0.
unfoldable pub check_config : EngineConfig → Result EngineConfig
check_config c =
    if not (bit_and c.block_size (c.block_size - 1) == 0)
    then raise value_error
    else if ltb c.max_num_batched_tokens c.block_size
    then raise value_error
    else ok c
