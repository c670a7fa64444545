-- ===== src/Tests/Cache.antt =====
-- The theorems on the prefix cache, with a hash of numbers and lists.
use paged_llm.Base.{
  ℕ, zero, suc, ◌+◌, ◌*◌, ◌<◌, ◌≡◌, ◌⊎◌, refl, subst, inl, inr, List, [], ◌∷◌, false, Option, none,
  some, if◌then◌else◌, ltb, ◌==◌, get_elem?, lookup, take, arith, ok, ◌↔◌, ◌≢◌,
}
use paged_llm.Sequence.{Sequence}
use paged_llm.BlockManager.{BlockManager, KvBlock, allocate_block}
use paged_llm.BlockManager.Reuse.{allocate_block-evict}
use paged_llm.BlockManager.PrefixCache.{cache_full_blocks, get_computed_blocks}
use paged_llm.BlockManager.Invariant.{IsValid}
use paged_llm.BlockManager.Chain.{Collides, chain}
use paged_llm.BlockManager.Labels.{Agree, Labelled, KeepsLabels, cache_full_blocks-Labelled}
use paged_llm.BlockManager.Hits.{
  Hits, searched, with_hits, get_computed_blocks-Hits, get_computed_blocks_sound,
  get_computed_blocks-Cached,
}
use paged_llm.Tests.Data.{demo_hash, pool2, pool2-IsValid, decoding, fresh}

-- Two numbers as one: twice the second and one, doubled as often as the first says.
abbrev pair : ℕ → ℕ → ℕ
pair zero b = b + b + 1
pair (suc a) b = pair a b + pair a b

abbrev of_list : List ℕ → ℕ
of_list [] = 0
of_list (t ∷ ts) = suc (pair t (of_list ts))

abbrev of_option : Option ℕ → ℕ
of_option none = 0
of_option (some h) = suc h

abbrev pair_hash : Option ℕ → List ℕ → ℕ
pair_hash p xs = pair (of_option p) (of_list xs)

-- Three tokens, and the hash of the first two.
abbrev known : Sequence
known = record decoding {
  prompt_token_ids = 1 ∷ 2 ∷ 3 ∷ [];
  token_ids = 1 ∷ 2 ∷ 3 ∷ [];
  num_computed_tokens = 2;
}

abbrev label : ℕ
label = pair_hash none (1 ∷ 2 ∷ [])

abbrev cache : BlockManager
cache = record pool2 {
  blocks = λ b. record {
    block_id = b;
    ref_count = if ltb b 2 then 1 else 0;
    block_hash = if b == 0 then some label else none;
  };
  cached = (label, 0) ∷ [];
}

cache-IsValid : IsValid cache (0 ∷ 1 ∷ [])
unfolding lookup
cache-IsValid = record {
  size_pos = omega arith;
  ids = λ b h. refl;
  free_count = λ b. ground arith;
  held_count = λ b. ground arith;
  cached_of_hash = λ h b l e. ground (arith, e);
  hash_of_cached = λ h b e. ground (arith, e);
  disabled = λ e h. cc;
}

-- The blocks of the table are its indices.
table_at : (i x : ℕ) → get_elem? (0 ∷ 1 ∷ []) i ≡ some x → (i ≡ x) × (x < 2)
table_at zero x e = ground (arith, e)
table_at (suc zero) x e = ground (arith, e)
table_at (suc (suc i)) x e = cc

known-Labelled : Labelled pair_hash cache known
known-Labelled zero x e = let first : 0 ≡ x = (table_at 0 x e).0 in rw⁻¹ first (inr refl)
known-Labelled (suc i) x e =
    let other : (x == 0) ≡ false = ground (arith, table_at (suc i) x e) in rw other (inl refl)

decoding-Labelled : Labelled demo_hash pool2 decoding
decoding-Labelled i x e = inl refl

decoding-Agree : Agree 2 2 decoding decoding
decoding-Agree i j x less e f = (omega (arith, table_at i x e, table_at j x f), refl)

-- A request with the same first block.
abbrev asking : Sequence
asking = record fresh { prompt_token_ids = 1 ∷ 2 ∷ 4 ∷ []; token_ids = 1 ∷ 2 ∷ 4 ∷ [] }

cache_full_blocks-Labelled_example :
    KeepsLabels demo_hash pool2 decoding decoding (cache_full_blocks demo_hash pool2 decoding 0 4)
cache_full_blocks-Labelled_example =
    cache_full_blocks-Labelled demo_hash decoding decoding 0 4 [] pool2 pool2-IsValid (omega arith)
      (omega arith) decoding-Agree decoding-Agree decoding-Labelled decoding-Labelled

get_computed_blocks-Hits_example :
    Hits pair_hash cache asking.token_ids
      (get_computed_blocks pair_hash cache asking).0
      (searched pair_hash cache asking)
      0
get_computed_blocks-Hits_example = get_computed_blocks-Hits pair_hash cache asking refl refl

get_computed_blocks_sound_example :
    Labelled pair_hash cache (with_hits pair_hash cache asking)
    × ((i j x : ℕ)
        → get_elem? (with_hits pair_hash cache asking).block_table i ≡ some x
        → get_elem? known.block_table j ≡ some x
        → Collides pair_hash 2 (suc i) (suc j) asking.token_ids known.token_ids
          ⊎ ((i ≡ j) × (take (suc i * 2) asking.token_ids ≡ take (suc i * 2) known.token_ids)))
get_computed_blocks_sound_example =
    get_computed_blocks_sound pair_hash cache asking known (0 ∷ 1 ∷ []) cache-IsValid known-Labelled

get_computed_blocks-Cached_example : take 1 (with_hits pair_hash cache asking).block_table ≡ 0 ∷ []
get_computed_blocks-Cached_example =
    get_computed_blocks-Cached pair_hash cache asking known (0 ∷ 1 ∷ []) 1 cache-IsValid refl refl
      (λ i lt.
        let first : 0 ≡ i = omega arith in
        subst
          (λ k.
            (x : ℕ) × (get_elem? known.block_table k ≡ some x)
            × (x < 4)
            × ((cache.blocks x).block_hash ≡ chain pair_hash 2 known.token_ids (suc k)))
          first (0, refl, omega arith, refl))
      (omega arith) refl (omega arith)

-- Block 2 is the oldest free one, and still cached.
abbrev stale : BlockManager
stale = record pool2 {
  blocks = λ b. record {
    block_id = b;
    ref_count = if ltb b 2 then 1 else 0;
    block_hash = if b == 2 then some 7 else none;
  };
  cached = (7, 2) ∷ [];
}

stale-IsValid : IsValid stale (0 ∷ 1 ∷ [])
unfolding lookup
stale-IsValid = record {
  size_pos = omega arith;
  ids = λ b h. refl;
  free_count = λ b. ground arith;
  held_count = λ b. ground arith;
  cached_of_hash = λ h b l e. ground (arith, e);
  hash_of_cached = λ h b e. ground (arith, e);
  disabled = λ e h. cc;
}

allocate_block-evict_example :
    (k : KvBlock) × (bm' : BlockManager) × (allocate_block stale ≡ ok (k, bm'))
    × (k.block_id ≡ 2)
    × (bm'.free ≡ 3 ∷ [])
    × IsValid bm' (2 ∷ 0 ∷ 1 ∷ [])
    × ((h b : ℕ) → (lookup h bm'.cached ≡ some b) ↔ ((lookup h stale.cached ≡ some b) × (b ≢ 2)))
    × ((b : ℕ) → b ≢ 2 → bm'.blocks b ≡ stale.blocks b)
allocate_block-evict_example = allocate_block-evict stale (0 ∷ 1 ∷ []) (3 ∷ []) 2 stale-IsValid refl
