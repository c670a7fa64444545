-- ===== src/BlockManager/Labels.antt =====
-- pagedllm/block_manager.py: the hashes that `cache_full_blocks` gives to blocks are those of the
-- chain along the tokens of the sequences that hold them.
use paged_llm.Base.{
  ℕ, zero, suc, ◌+◌, ◌-◌, ◌*◌, ◌/◌, ◌<◌, ◌≤◌, ◌≡◌, ◌⊎◌, inl, inr, refl, sym, ap, subst, ◌∙◌, List,
  ◌++◌, true, ◌||◌, ◌&&◌, not, ltb, ◌==◌, Bool-cases, length, take, get_elem?, get_elem?_in_range,
  count-get_elem?, count-append, AllBelow, AllBelow-of_count, below_of_AllBelow, lt→ltb, div_mono,
  lookup, Option, Option-cases, some, none, Result, ok, arith,
}
use paged_llm.Sequence.{Sequence}
use paged_llm.BlockManager.{BlockManager}
use paged_llm.BlockManager.PrefixCache.{
  register, cache_blocks, cache_full_blocks, block_tokens, hash_block, is_none, previous_hash,
}
use paged_llm.BlockManager.Invariant.{IsValid}
use paged_llm.BlockManager.Chain.{chain, link, chain-cong}

-- The `i`-th block of the table, for `i` below `n`, is in the other's table at the same index only,
-- and stands for the same tokens there.
abbrev pub Agree : ℕ → ℕ → Sequence → Sequence → Type 0
Agree bs n s u =
    (i j x : ℕ)
    → i < n
    → get_elem? s.block_table i ≡ some x
    → get_elem? u.block_table j ≡ some x
    → (i ≡ j) × (take (suc i * bs) s.token_ids ≡ take (suc i * bs) u.token_ids)

module _ (hash : Option ℕ → List ℕ → ℕ) where
  -- Each block of the table that has a hash has that of the chain.
  abbrev pub Labelled : BlockManager → Sequence → Type 0
  Labelled bm u =
      (i x : ℕ)
      → get_elem? u.block_table i ≡ some x
      → ((bm.blocks x).block_hash ≡ none)
        ⊎ ((bm.blocks x).block_hash ≡ chain hash bm.block_size u.token_ids (suc i))

  register-Labelled :
      (bm : BlockManager) (s u : Sequence) (n i x : ℕ)
      → Agree bm.block_size n s u
      → i < n
      → get_elem? s.block_table i ≡ some x
      → Labelled bm u
      → Labelled (register hash bm x (bm.blocks x) (link hash bm.block_size s.token_ids i)) u
  unfolding register
  register-Labelled bm s u n i x agree lt at_i labelled j y at_j = elim (Bool-cases (x == y)) [
    | inr e ↦ rw e (labelled j y at_j)
    | inl e ↦
        let x_y : x ≡ y = ground arith in
        let (same, prefix) = agree i j x lt at_i (at_j ∙ ap some (sym x_y)) in
        rw e (
          inr (
            chain-cong hash bm.block_size (suc i) s.token_ids u.token_ids prefix
            ∙ ap (λ k. chain hash bm.block_size u.token_ids (suc k)) same))
  ]

  cache_blocks-Labelled :
      (s u : Sequence) (n i : ℕ) (prev : Option ℕ) (bm : BlockManager)
      → AllBelow bm.num_blocks s.block_table
      → i + n ≤ length s.block_table
      → Agree bm.block_size (i + n) s s
      → Agree bm.block_size (i + n) s u
      → (prev ≡ none) ⊎ (prev ≡ chain hash bm.block_size s.token_ids i)
      → Labelled bm s
      → Labelled bm u
      → (bm' : BlockManager) × (cache_blocks hash bm s n i prev ≡ ok bm')
        × Labelled bm' s
        × Labelled bm' u
  unfolding cache_blocks hash_block
  cache_blocks-Labelled s u zero i prev bm below h own agree linked ls lu = (bm, refl, ls, lu)
  cache_blocks-Labelled s u (suc n) i prev bm below h own agree linked ls lu =
      let (x, at_i) = get_elem?_in_range s.block_table i (omega arith) in
      let lt : x < bm.num_blocks =
        below_of_AllBelow bm.num_blocks x s.block_table below
          (count-get_elem? s.block_table i x at_i) in
      let here : ltb x bm.num_blocks ≡ true = lt→ltb x bm.num_blocks lt in
      let own' : Agree bm.block_size (i + 1 + n) s s = λ a b y less. own a b y (omega arith) in
      let agree' : Agree bm.block_size (i + 1 + n) s u = λ a b y less. agree a b y (omega arith) in
      let next : suc i ≡ i + 1 = omega arith in
      elim (Option-cases (bm.blocks x).block_hash) [
        | inr (j, hashed) ↦
            let linked' : some j ≡ chain hash bm.block_size s.token_ids (i + 1) =
              elim (ls i x at_i) [
                | inl none_there ↦ cc
                | inr label ↦ sym hashed ∙ label ∙ ap (chain hash bm.block_size s.token_ids) next
              ] in
            let (bm', eq, ls', lu') =
              cache_blocks-Labelled s u n (i + 1) (some j) bm below (omega arith) own' agree'
                (inr linked') ls lu in
            (bm', rw (at_i, here, hashed) eq, ls', lu')
        | inl unhashed ↦
            let j = hash_block hash prev (block_tokens bm.block_size s.token_ids i) in
            elim (Bool-cases ((is_none prev && ltb 0 i) || not (is_none (lookup j bm.cached)))) [
              | inl stop ↦ (bm, rw (at_i, here, unhashed, stop), ls, lu)
              | inr go ↦
                  let prev_is : prev ≡ chain hash bm.block_size s.token_ids i = elim linked [
                    | inr same ↦ same
                    | inl none_before ↦
                        let first : 0 ≡ i = ground (arith, go, none_before) in
                        none_before ∙ ap (chain hash bm.block_size s.token_ids) first
                  ] in
                  let j_is : j ≡ link hash bm.block_size s.token_ids i =
                    ap (λ p. hash p (block_tokens bm.block_size s.token_ids i)) prev_is in
                  let bm1 = register hash bm x (bm.blocks x) j in
                  let relabel : (v : Sequence)
                      → Agree bm.block_size (i + suc n) s v
                      → Labelled bm v
                      → Labelled bm1 v =
                    λ v alike labelled.
                      subst (λ h. Labelled (register hash bm x (bm.blocks x) h) v) (sym j_is)
                        (register-Labelled bm s v (i + suc n) i x alike (omega arith) at_i
                          labelled) in
                  let (bm', eq, ls', lu') =
                    cache_blocks-Labelled s u n (i + 1) (some j) bm1 below (omega arith) own' agree'
                      (inr (ap some j_is ∙ ap (chain hash bm.block_size s.token_ids) next))
                      (relabel s own ls) (relabel u agree lu) in
                  (bm', rw (at_i, here, unhashed, go) eq, ls', lu')
            ]
      ]

  previous_hash-Labelled :
      (s : Sequence) (i : ℕ) (bm : BlockManager)
      → AllBelow bm.num_blocks s.block_table
      → i ≤ length s.block_table
      → Labelled bm s
      → (prev : Option ℕ) × (previous_hash hash bm s i ≡ ok prev)
        × ((prev ≡ none) ⊎ (prev ≡ chain hash bm.block_size s.token_ids i))
  unfolding previous_hash
  previous_hash-Labelled s zero bm below h labelled = (none, refl, inl refl)
  previous_hash-Labelled s (suc i) bm below h labelled =
      let (x, at_i) = get_elem?_in_range s.block_table i (omega arith) in
      let lt : x < bm.num_blocks =
        below_of_AllBelow bm.num_blocks x s.block_table below
          (count-get_elem? s.block_table i x at_i) in
      let before : suc i - 1 ≡ i = omega arith in
      ((bm.blocks x).block_hash, ground (arith, before, at_i, lt), labelled i x at_i)

  abbrev pub KeepsLabels : BlockManager → Sequence → Sequence → Result BlockManager → Type 0
  KeepsLabels bm s u r = (bm' : BlockManager) × (r ≡ ok bm') × Labelled bm' s × Labelled bm' u

  -- `cache_full_blocks` hashes along the chain, for any hash. On a valid pool and for an interval
  -- of computed tokens that the table covers, let each block of two sequences that has a hash have
  -- that of the chain along its tokens, the first of the two be the one that is cached, and let
  -- each of its full computed blocks be in each of the two tables at the same index only and with
  -- the same tokens up to its end. Then `cache_full_blocks` does not raise, and each block of the
  -- two that has a hash has again that of the chain.
  pub cache_full_blocks-Labelled :
      (s u : Sequence) (before after : ℕ) (rest : List ℕ) (bm : BlockManager)
      → IsValid bm (s.block_table ++ rest)
      → before ≤ after
      → after ≤ length s.block_table * bm.block_size
      → Agree bm.block_size (after / bm.block_size) s s
      → Agree bm.block_size (after / bm.block_size) s u
      → Labelled bm s
      → Labelled bm u
      → KeepsLabels bm s u (cache_full_blocks hash bm s before after)
  unfolding cache_full_blocks
  cache_full_blocks-Labelled s u before after rest bm v le room own agree ls lu =
      let bs = bm.block_size in
      let t = s.block_table in
      let below : AllBelow bm.num_blocks t =
        AllBelow-of_count bm.num_blocks t
          (λ b p. ground (arith, v.held_count b, count-append b t rest)) in
      let up : before / bs ≤ after / bs = div_mono before after bs le in
      let fits : after / bs ≤ length t = grind (arith, v.size_pos) in
      elim (Bool-cases (not bm.enable_prefix_caching || (before / bs == after / bs))) [
        | inl idle ↦ (bm, rw idle, ls, lu)
        | inr work ↦
            let (prev, found, linked) =
              previous_hash-Labelled s (before / bs) bm below (omega arith) ls in
            let (bm', eq, ls', lu') =
              cache_blocks-Labelled s u (after / bs - before / bs) (before / bs) prev bm below
                (omega arith) (λ a b y less. own a b y (omega arith))
                (λ a b y less. agree a b y (omega arith)) linked ls lu in
            (bm', rw (work, found) eq, ls', lu')
      ]
