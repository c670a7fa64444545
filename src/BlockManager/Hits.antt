-- ===== src/BlockManager/Hits.antt =====
-- pagedllm/block_manager.py: what the hits of `get_computed_blocks` are.
use paged_llm.Base.{
  ℕ, zero, suc, ◌+◌, ◌-◌, ◌*◌, ◌/◌, ◌<◌, ◌≤◌, ◌≡◌, ◌⊎◌, inl, inr, refl, sym, ap, subst, ◌∙◌, List,
  ◌∷◌, true, false, ltb, mul_mono, div_mono, mul-div_cancel, take-take, take_ext,
  get_elem?_in_range, Bool-cases, not, ◌||◌, length, take, get_elem?, lookup, Option, Option-cases,
  some, none, arith,
}
use paged_llm.Sequence.{Sequence, num_tokens}
use paged_llm.BlockManager.{BlockManager}
use paged_llm.BlockManager.PrefixCache.{find_hits, get_computed_blocks, hash_block}
use paged_llm.BlockManager.Invariant.{IsValid}
use paged_llm.BlockManager.Chain.{Collides, chain, link, chain_tells, chain-cong}
use paged_llm.BlockManager.Labels.{Labelled}

module _ (hash : Option ℕ → List ℕ → ℕ) where
  -- From block `i` on, the hits are the blocks of the chain's hashes, up to the first that no block
  -- has, and at most `n`.
  pub record Hits (bm : BlockManager) (tokens hits : List ℕ) (n i : ℕ) : Type 0 where
    pub each :
        (k x : ℕ)
        → get_elem? hits k ≡ some x
        → lookup (link hash bm.block_size tokens (i + k)) bm.cached ≡ some x
    pub longest :
        (length hits ≡ n)
        ⊎ ((length hits < n)
            × (lookup (link hash bm.block_size tokens (i + length hits)) bm.cached ≡ none))

  each_cons :
      (bm : BlockManager) (tokens hits : List ℕ) (b n i : ℕ)
      → lookup (link hash bm.block_size tokens i) bm.cached ≡ some b
      → Hits bm tokens hits n (i + 1)
      → (k x : ℕ) → get_elem? (b ∷ hits) k ≡ some x
      → lookup (link hash bm.block_size tokens (i + k)) bm.cached ≡ some x
  each_cons bm tokens hits b n i hit rest zero x at_k =
      let here : i + 0 ≡ i = omega arith in rw here (hit ∙ at_k)
  each_cons bm tokens hits b n i hit rest (suc k) x at_k =
      let there : i + suc k ≡ i + 1 + k = omega arith in rw there (rest.each k x at_k)

  Hits-cons :
      (bm : BlockManager) (tokens hits : List ℕ) (b n i : ℕ)
      → lookup (link hash bm.block_size tokens i) bm.cached ≡ some b
      → Hits bm tokens hits n (i + 1)
      → Hits bm tokens (b ∷ hits) (suc n) i
  Hits-cons bm tokens hits b n i hit rest = record {
    each = each_cons bm tokens hits b n i hit rest;
    longest = elim rest.longest [
      | inl all ↦ inl (ap suc all)
      | inr (less, miss) ↦
          let there : i + suc (length hits) ≡ i + 1 + length hits = omega arith in
          inr (omega arith, rw there miss)
    ];
  }

  find_hits-Hits :
      (bm : BlockManager) (tokens : List ℕ) (n i : ℕ)
      → Hits bm tokens (find_hits hash bm tokens n i (chain hash bm.block_size tokens i)) n i
  unfolding find_hits hash_block
  find_hits-Hits bm tokens zero i = record { each = λ k x e. cc; longest = inl refl }
  find_hits-Hits bm tokens (suc n) i =
      let next : suc i ≡ i + 1 = omega arith in
      let here : i + 0 ≡ i = omega arith in
      elim (Option-cases (lookup (link hash bm.block_size tokens i) bm.cached)) [
        | inl miss ↦
            rw (find_hits, miss)
              (record { each = λ k x e. cc; longest = inr (omega arith, rw here miss) })
        | inr (b, hit) ↦
            let h = link hash bm.block_size tokens i in
            let rest : Hits bm tokens (find_hits hash bm tokens n (i + 1) (some h)) n (i + 1) =
              subst
                (λ m.
                  Hits bm tokens
                    (find_hits hash bm tokens n (i + 1) (chain hash bm.block_size tokens m)) n
                    (i + 1))
                (sym next) (find_hits-Hits bm tokens n (i + 1)) in
            rw (find_hits, hit) (Hits-cons bm tokens _ b n i hit rest)
      ]

  -- The blocks that may be hit: all but the one of the last token.
  abbrev pub searched : BlockManager → Sequence → ℕ
  searched bm seq = (num_tokens seq - 1) / bm.block_size

  -- The hits are the longest cached prefix: with the cache enabled and nothing computed, the i-th
  -- hit of `get_computed_blocks` is the block that the cache has for the i-th hash of the chain
  -- along the tokens, and the hits end at the first hash that the cache does not have, or with the
  -- last block but that of the last token.
  pub get_computed_blocks-Hits :
      (bm : BlockManager) (seq : Sequence)
      → bm.enable_prefix_caching ≡ true
      → seq.num_computed_tokens ≡ 0
      → Hits bm seq.token_ids (get_computed_blocks hash bm seq).0 (searched bm seq) 0
  unfolding get_computed_blocks
  get_computed_blocks-Hits bm seq on new =
      let search : (not bm.enable_prefix_caching || ltb 0 seq.num_computed_tokens) ≡ false =
        ground (arith, on, new) in
      rw search (find_hits-Hits bm seq.token_ids (searched bm seq) 0)

  -- The sequence with its hits as its first blocks.
  abbrev pub with_hits : BlockManager → Sequence → Sequence
  with_hits bm seq = record seq { block_table = (get_computed_blocks hash bm seq).0 }

  hit_link :
      (bm : BlockManager) (seq : Sequence) (i x : ℕ)
      → get_elem? (with_hits bm seq).block_table i ≡ some x
      → lookup (link hash bm.block_size seq.token_ids i) bm.cached ≡ some x
  unfolding get_computed_blocks
  hit_link bm seq i x at_i =
      elim (Bool-cases (not bm.enable_prefix_caching || ltb 0 seq.num_computed_tokens)) [
        | inl off ↦ cc
        | inr looks ↦
            let at_i' : get_elem? (find_hits hash bm seq.token_ids (searched bm seq) 0 none) i
                ≡ some x =
              rw looks at at_i in
            let from_first : 0 + i ≡ i = omega arith in
            subst (λ m. lookup (link hash bm.block_size seq.token_ids m) bm.cached ≡ some x)
              from_first ((find_hits-Hits bm seq.token_ids (searched bm seq) 0).each i x at_i')
      ]

  hits-Labelled :
      (bm : BlockManager) (seq : Sequence) (held : List ℕ)
      → IsValid bm held
      → Labelled hash bm (with_hits bm seq)
  hits-Labelled bm seq held v i x at_i = inr (v.hash_of_cached _ x (hit_link bm seq i x at_i)).1

  -- The hits are of the right tokens, unless the hash collides. On a valid pool, for any hash, and
  -- for another sequence whose blocks have no hash or that of the chain along its tokens: each hit
  -- of `get_computed_blocks` has the hash of the chain along the tokens that are asked for, and if
  -- the other sequence has that block, then at the same index and with the same tokens from the
  -- first to the end of the block; or among the blocks of the two up to this one there are two for
  -- which the hash has one value, although their tokens or the hashes before them differ.
  pub get_computed_blocks_sound :
      (bm : BlockManager) (seq u : Sequence) (held : List ℕ)
      → IsValid bm held
      → Labelled hash bm u
      → Labelled hash bm (with_hits bm seq)
        × ((i j x : ℕ)
            → get_elem? (with_hits bm seq).block_table i ≡ some x
            → get_elem? u.block_table j ≡ some x
            → Collides hash bm.block_size (suc i) (suc j) seq.token_ids u.token_ids
              ⊎ ((i ≡ j)
                  × (take (suc i * bm.block_size) seq.token_ids
                      ≡ take (suc i * bm.block_size) u.token_ids)))
  get_computed_blocks_sound bm seq u held v labelled = (
    hits-Labelled bm seq held v,
    λ i j x at_i at_j.
        let hashed = (v.hash_of_cached _ x (hit_link bm seq i x at_i)).1 in
        elim (labelled j x at_j) [
          | inl unhashed ↦ cc
          | inr label ↦
              elim (chain_tells hash bm.block_size (suc i) (suc j) seq.token_ids u.token_ids
                (sym hashed ∙ label)) [
                  | inl collide ↦ inl collide
                  | inr (same, prefix) ↦ inr (omega (arith, same), prefix)
                ]
        ],
  )

  -- The first `n` blocks of the table are in the pool, with the hashes of the chain.
  abbrev pub Cached : BlockManager → Sequence → ℕ → Type 0
  Cached bm t n =
      (i : ℕ)
      → i < n
      → (x : ℕ) × (get_elem? t.block_table i ≡ some x)
        × (x < bm.num_blocks)
        × ((bm.blocks x).block_hash ≡ chain hash bm.block_size t.token_ids (suc i))

  -- The cache has what a sequence with the same first tokens asks for.
  cached_link :
      (bm : BlockManager) (seq t : Sequence) (held : List ℕ) (n i : ℕ)
      → IsValid bm held
      → Cached bm t n
      → take (n * bm.block_size) seq.token_ids ≡ take (n * bm.block_size) t.token_ids
      → i < n
      → (x : ℕ) × (get_elem? t.block_table i ≡ some x)
        × (lookup (link hash bm.block_size seq.token_ids i) bm.cached ≡ some x)
  cached_link bm seq t held n i v kept prefix lt =
      let (x, at_i, below, hashed) = kept i lt in
      let bs = bm.block_size in
      let less : suc i * bs ≤ n * bs = mul_mono (suc i) n bs (omega arith) in
      let prefix' : take (suc i * bs) seq.token_ids ≡ take (suc i * bs) t.token_ids =
        sym (take-take (suc i * bs) (n * bs) seq.token_ids less)
        ∙ ap (take (suc i * bs)) prefix
        ∙ take-take (suc i * bs) (n * bs) t.token_ids less in
      (
        x,
        at_i,
        v.cached_of_hash _ x below
            (hashed ∙ sym (chain-cong hash bs (suc i) seq.token_ids t.token_ids prefix')),
      )

  -- What is cached is found, for any hash. On a valid pool with the cache enabled, if the first
  -- blocks of a table have the hashes of the chain along its tokens, then for a sequence with
  -- nothing computed, the same tokens in these blocks, and at least one token more, the first hits
  -- of `get_computed_blocks` are these blocks.
  pub get_computed_blocks-Cached :
      (bm : BlockManager) (seq t : Sequence) (held : List ℕ) (n : ℕ)
      → IsValid bm held
      → bm.enable_prefix_caching ≡ true
      → seq.num_computed_tokens ≡ 0
      → Cached bm t n
      → n ≤ length t.block_table
      → take (n * bm.block_size) seq.token_ids ≡ take (n * bm.block_size) t.token_ids
      → n * bm.block_size < num_tokens seq
      → take n (with_hits bm seq).block_table ≡ take n t.block_table
  get_computed_blocks-Cached bm seq t held n v on new kept enough prefix longer =
      let hits = get_computed_blocks-Hits bm seq on new in
      let table = (with_hits bm seq).block_table in
      let all_searched : n ≤ searched bm seq = omega (
        arith,
        div_mono (n * bm.block_size) (num_tokens seq - 1) bm.block_size (omega arith),
        mul-div_cancel n bm.block_size v.size_pos,
      ) in
      let found : n ≤ length table = elim hits.longest [
        | inl all ↦ omega (arith, all, all_searched)
        | inr (less, miss) ↦ elim (Bool-cases (ltb (length table) n)) [
          | inr long ↦ ground (arith, long)
          | inl short ↦
              let (x, at_i, hit) =
                cached_link bm seq t held n (length table) v kept prefix (ground (arith, short)) in
              let from_first : 0 + length table ≡ length table = omega arith in
              let miss' : lookup (link hash bm.block_size seq.token_ids (length table)) bm.cached
                  ≡ none =
                subst (λ m. lookup (link hash bm.block_size seq.token_ids m) bm.cached ≡ none)
                  from_first miss in
              cc
        ]
      ] in
      take_ext n table t.block_table found enough (λ i lt.
        let (x, at_i, hit) = cached_link bm seq t held n i v kept prefix lt in
        let (y, at_i') = get_elem?_in_range table i (omega arith) in
        let hit' = hit_link bm seq i y at_i' in at_i' ∙ sym hit' ∙ hit ∙ sym at_i)
