-- ===== src/KvCache.antt =====
-- pagedllm/kv_cache.py: the tensors of keys and values, and `gather_kv` of
-- pagedllm/attention/reference.py, which reads them.
-- A row is what a slot holds: the keys, or the values, of one token. The operations of torch on the
-- tensor of a layer are parameters.
pub mod Laws
pub mod Gather
pub mod Write
pub mod Copy
pub mod Isolation
pub mod Parts
pub mod Windows
pub mod Batch
use paged_llm.Base.{
  ℕ, zero, suc, ◌+◌, ◌-◌, ◌/◌, List, [], ◌∷◌, map, take, get_elem?, set, Result, ok, index_error,
  or_raise, ◌>>=◌,
}
use paged_llm.BlockManager.{CopyOnWrite, num_blocks_for_tokens}

-- Of a tensor `T` of rows, in blocks: `torch.zeros`, `t.view(-1, …).index_copy_(0, slots, rows)`,
-- `t[blocks]`, `t[blocks] = …`, and `.reshape(-1, …)` of a number of blocks.
pub record Tensors (T Row : Type 0) : Type 1 where
  pub Blocks : Type 0
  pub zeros : ℕ → ℕ → T
  pub index_copy : T → List ℕ → List Row → T
  pub select : T → List ℕ → Blocks
  pub put : T → List ℕ → Blocks → T
  pub reshape : Blocks → List Row

pub record KvCache (T : Type 0) : Type 0 where
  pub num_layers : ℕ
  pub num_blocks : ℕ
  pub block_size : ℕ
  pub k_caches : List T
  pub v_caches : List T

-- `[a for _ in range(n)]`
abbrev pub replicate {ℓ} : {A : Type ℓ} → ℕ → A → List A
replicate zero a = []
replicate (suc n) a = a ∷ replicate n a

module _ {T Row : Type 0} (ops : Tensors T Row) where
  -- The constructor. The heads, their size, the type and the device are those of a row.
  unfoldable pub new_cache : ℕ → ℕ → ℕ → KvCache T
  new_cache num_layers num_blocks block_size = record {
    num_layers = num_layers;
    num_blocks = num_blocks;
    block_size = block_size;
    k_caches = replicate num_layers (ops.zeros num_blocks block_size);
    v_caches = replicate num_layers (ops.zeros num_blocks block_size);
  }

  unfoldable pub write_cache : KvCache T → ℕ → List Row → List Row → List ℕ → Result (KvCache T)
  write_cache c layer k v slots = do
    kc ← or_raise (get_elem? c.k_caches layer) index_error
    vc ← or_raise (get_elem? c.v_caches layer) index_error
    ok (record c {
      k_caches = set c.k_caches layer (ops.index_copy kc slots k);
      v_caches = set c.v_caches layer (ops.index_copy vc slots v);
    })

  -- The loop of `apply_copies`: `n` layers from `layer` on.
  unfoldable pub copy_layers : KvCache T → List ℕ → List ℕ → ℕ → ℕ → Result (KvCache T)
  copy_layers c src dst zero layer = ok c
  copy_layers c src dst (suc n) layer = do
    kc ← or_raise (get_elem? c.k_caches layer) index_error
    vc ← or_raise (get_elem? c.v_caches layer) index_error
    copy_layers
        (record c {
          k_caches = set c.k_caches layer (ops.put kc dst (ops.select kc src));
          v_caches = set c.v_caches layer (ops.put vc dst (ops.select vc src));
        })
        src dst n (layer + 1)

  unfoldable pub apply_copies : KvCache T → List CopyOnWrite → Result (KvCache T)
  unfolding copy_layers
  apply_copies c [] = ok c
  apply_copies c (o ∷ os) =
      copy_layers c (map (λ (p : CopyOnWrite). p.src_block) (o ∷ os))
        (map (λ (p : CopyOnWrite). p.dst_block) (o ∷ os)) c.num_layers 0

  -- The rows of one tensor for the first `seq_len` positions of a table.
  unfoldable pub gather : ℕ → T → List ℕ → ℕ → List Row
  gather block_size cache table seq_len =
      take seq_len
        (ops.reshape (ops.select cache (take (num_blocks_for_tokens seq_len block_size) table)))

  -- `k_cache.shape[1]` is the block size.
  abbrev pub gather_kv : ℕ → T → T → List ℕ → ℕ → List Row × List Row
  gather_kv block_size k_cache v_cache table seq_len =
      (gather block_size k_cache table seq_len, gather block_size v_cache table seq_len)
