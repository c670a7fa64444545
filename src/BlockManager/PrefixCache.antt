-- ===== src/BlockManager/PrefixCache.antt =====
-- pagedllm/block_manager.py: the prefix cache. `hash` is Python's built-in hash of the pair of
-- the previous block's hash and a block's tokens; its values are compared for equality only.
use paged_llm.Base.{
  ℕ, zero, suc, ◌+◌, ◌-◌, ◌*◌, ◌/◌, List, [], ◌∷◌, Bool, true, false, ◌||◌, ◌&&◌, Option, none,
  some, if◌then◌else◌, ltb, ◌==◌, length, get_elem?, take, drop, lookup, insert, Result, ok,
  index_error, or_raise, ◌>>=◌, not,
}
use paged_llm.Sequence.{Sequence, num_tokens}
use paged_llm.BlockManager.{BlockManager, KvBlock, block, update}

-- `xs[a:b]`
abbrev pub slice {ℓ} : {A : Type ℓ} → ℕ → ℕ → List A → List A
slice a b xs = take (b - a) (drop a xs)

-- The tokens of the `i`-th block of a list of tokens.
abbrev pub block_tokens : ℕ → List ℕ → ℕ → List ℕ
block_tokens bs tokens i = slice (i * bs) ((i + 1) * bs) tokens

abbrev pub is_none {ℓ} : {A : Type ℓ} → Option A → Bool
is_none none = true
is_none (some a) = false

module _ (hash : Option ℕ → List ℕ → ℕ) where
  unfoldable pub hash_block : Option ℕ → List ℕ → ℕ
  hash_block prev tokens = hash prev tokens

  -- The loop of `get_computed_blocks`: `n` rounds from block `i` on.
  unfoldable pub find_hits : BlockManager → List ℕ → ℕ → ℕ → Option ℕ → List ℕ
  unfolding hash_block lookup
  find_hits bm tokens zero i prev = []
  find_hits bm tokens (suc n) i prev =
      let h = hash_block prev (block_tokens bm.block_size tokens i) in
      elim (lookup h bm.cached) [ none ↦ [] | some b ↦ b ∷ find_hits bm tokens n (i + 1) (some h) ]

  -- The block ids, the number of their tokens, and the manager with its statistics.
  unfoldable pub get_computed_blocks : BlockManager → Sequence → List ℕ × ℕ × BlockManager
  unfolding find_hits
  get_computed_blocks bm seq =
      if not bm.enable_prefix_caching || ltb 0 seq.num_computed_tokens
      then ([], 0, bm)
      else (let hits = find_hits bm seq.token_ids ((num_tokens seq - 1) / bm.block_size) 0 none in
          (
            hits,
            length hits * bm.block_size,
            record bm {
              num_cache_queries = bm.num_cache_queries + 1;
              num_cache_hits = bm.num_cache_hits + (if ltb 0 (length hits) then 1 else 0);
            },
          ))

  -- `block.block_hash = h; self._cached[h] = block.block_id`
  unfoldable pub register : BlockManager → ℕ → KvBlock → ℕ → BlockManager
  unfolding insert
  register bm b k h = record bm {
    blocks = update bm.blocks b (record k { block_hash = some h });
    cached = insert h k.block_id bm.cached;
  }

  -- The loop of `cache_full_blocks`: `n` rounds from block `i` on.
  unfoldable pub cache_blocks : BlockManager → Sequence → ℕ → ℕ → Option ℕ → Result BlockManager
  unfolding hash_block register block lookup
  cache_blocks bm seq zero i prev = ok bm
  cache_blocks bm seq (suc n) i prev = do
    b ← or_raise (get_elem? seq.block_table i) index_error
    k ← block bm b
    elim k.block_hash [
      | some h ↦ cache_blocks bm seq n (i + 1) (some h)
      | none ↦
          let h = hash_block prev (block_tokens bm.block_size seq.token_ids i) in
          elim ((is_none prev && ltb 0 i) || not (is_none (lookup h bm.cached))) [
            | true ↦ ok bm
            | false ↦ cache_blocks (register bm b k h) seq n (i + 1) (some h)
          ]
    ]

  -- The hash of the block before the first to cache.
  unfoldable pub previous_hash : BlockManager → Sequence → ℕ → Result (Option ℕ)
  unfolding block
  previous_hash bm seq first_full =
      if ltb 0 first_full
      then (do
        b ← or_raise (get_elem? seq.block_table (first_full - 1)) index_error
        k ← block bm b
        ok k.block_hash)
      else ok none

  unfoldable pub cache_full_blocks : BlockManager → Sequence → ℕ → ℕ → Result BlockManager
  unfolding previous_hash cache_blocks
  cache_full_blocks bm seq before after =
      let first_full = before / bm.block_size in
      let last_full = after / bm.block_size in
      if not bm.enable_prefix_caching || first_full == last_full then ok bm else (do
        prev ← previous_hash bm seq first_full
        cache_blocks bm seq (last_full - first_full) first_full prev)
