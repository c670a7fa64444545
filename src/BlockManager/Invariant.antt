-- ===== src/BlockManager/Invariant.antt =====
-- pagedllm/block_manager.py: what holds of a block manager between its calls, and the pool
-- operations that keep it.
use paged_llm.Base.{
  ℕ, ◌<◌, ◌≡◌, refl, List, false, none, some, if◌then◌else◌, ltb, ◌==◌, count, lookup, arith,
}
use paged_llm.BlockManager.{BlockManager}

-- The number of references that the manager counts for a block id.
abbrev pub refs : BlockManager → ℕ → ℕ
refs bm b = if ltb b bm.num_blocks then (bm.blocks b).ref_count else 0

-- `held` lists the block references that sequences hold, in any order.
pub record IsValid (bm : BlockManager) (held : List ℕ) : Type 0 where
  pub size_pos : 0 < bm.block_size
  pub ids : (b : ℕ) → b < bm.num_blocks → (bm.blocks b).block_id ≡ b
  pub free_count :
      (b : ℕ)
      → count b bm.free
        ≡ (if ltb b bm.num_blocks then (if (bm.blocks b).ref_count == 0 then 1 else 0) else 0)
  pub held_count : (b : ℕ) → count b held ≡ refs bm b
  pub cached_of_hash :
      (h b : ℕ)
      → b < bm.num_blocks
      → (bm.blocks b).block_hash ≡ some h
      → lookup h bm.cached ≡ some b
  pub hash_of_cached :
      (h b : ℕ)
      → lookup h bm.cached ≡ some b
      → (b < bm.num_blocks) × ((bm.blocks b).block_hash ≡ some h)
  pub disabled : bm.enable_prefix_caching ≡ false → (h : ℕ) → lookup h bm.cached ≡ none

-- What no call changes.
pub record SameShape (bm bm' : BlockManager) : Type 0 where
  pub same_blocks : bm'.num_blocks ≡ bm.num_blocks
  pub same_size : bm'.block_size ≡ bm.block_size
  pub same_caching : bm'.enable_prefix_caching ≡ bm.enable_prefix_caching

pub SameShape-refl : (bm : BlockManager) → SameShape bm bm
SameShape-refl bm = record { same_blocks = refl; same_size = refl; same_caching = refl }

pub SameShape-trans : {a b c : BlockManager} → SameShape a b → SameShape b c → SameShape a c
SameShape-trans s t = record { same_blocks = cc; same_size = cc; same_caching = cc }

-- The two multisets of references are the same.
abbrev pub SameCount : List ℕ → List ℕ → Type 0
SameCount xs ys = (b : ℕ) → count b xs ≡ count b ys

pub IsValid-of_SameCount :
    {bm : BlockManager} {xs ys : List ℕ} → IsValid bm xs → SameCount xs ys → IsValid bm ys
IsValid-of_SameCount v e = record {
  size_pos = v.size_pos;
  ids = v.ids;
  free_count = v.free_count;
  held_count = λ b. omega (arith, v.held_count b, e b);
  cached_of_hash = v.cached_of_hash;
  hash_of_cached = v.hash_of_cached;
  disabled = v.disabled;
}
