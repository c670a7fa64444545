-- ===== src/BlockManager/Caching.antt =====
-- pagedllm/block_manager.py: the prefix cache keeps the invariant, and its answers are blocks of
-- the pool that leave the last token to compute.
use paged_llm.Base.{
  ℕ, zero, suc, ◌+◌, ◌-◌, ◌*◌, ◌/◌, ◌<◌, ◌≤◌, ◌≡◌, refl, List, ◌++◌, true, ◌||◌, not, ltb, ◌==◌,
  length, Option, some, none, ok, count-append, AllBelow, AllBelow-of_count, arith,
  get_elem?_in_range, Bool-cases, Option-cases, inl, inr, div_mono, lookup, lookup-insert,
  count-get_elem?, mul_mono, ◌&&◌, lt→ltb, below_of_AllBelow,
}
use paged_llm.Sequence.{Sequence, num_tokens}
use paged_llm.BlockManager.{BlockManager}
use paged_llm.BlockManager.PrefixCache.{
  find_hits, get_computed_blocks, register, cache_blocks, cache_full_blocks, block_tokens,
  hash_block, is_none, previous_hash,
}
use paged_llm.BlockManager.Invariant.{IsValid, SameShape, SameShape-refl, SameShape-trans}

hits_leave_one : (n t bs : ℕ) → 0 < t → n ≤ (t - 1) / bs → n * bs < t
hits_leave_one n t bs pos h = omega (arith, mul_mono n ((t - 1) / bs) bs h)

-- The statistics play no part in the invariant.
IsValid-stats :
    {bm : BlockManager} {held : List ℕ} {queries hits : ℕ}
    → IsValid bm held
    → IsValid (record bm { num_cache_queries = queries; num_cache_hits = hits }) held
IsValid-stats v = record {
  size_pos = v.size_pos;
  ids = v.ids;
  free_count = v.free_count;
  held_count = v.held_count;
  cached_of_hash = v.cached_of_hash;
  hash_of_cached = v.hash_of_cached;
  disabled = v.disabled;
}

module _ (hash : Option ℕ → List ℕ → ℕ) where
  -- Every hit is a block of the pool, and there are no more than the rounds.
  find_hits_bounds :
      (bm : BlockManager) (held tokens : List ℕ) (n i : ℕ) (prev : Option ℕ)
      → IsValid bm held
      → AllBelow bm.num_blocks (find_hits hash bm tokens n i prev)
        × (length (find_hits hash bm tokens n i prev) ≤ n)
  unfolding find_hits
  find_hits_bounds bm held tokens zero i prev v = (tt, omega arith)
  find_hits_bounds bm held tokens (suc n) i prev v =
      let h = hash_block hash prev (block_tokens bm.block_size tokens i) in
      elim (Option-cases (lookup h bm.cached)) [
        | inl miss ↦ rw (miss, find_hits) (tt, omega arith)
        | inr (b, hit) ↦
            let ih = find_hits_bounds bm held tokens n (i + 1) (some h) v in
            rw (hit, find_hits) (((v.hash_of_cached h b hit).0, ih.0), omega (arith, ih.1))
      ]

  -- On a valid pool and for a sequence with a token, the hits of `get_computed_blocks` are blocks
  -- of the pool, the cached tokens are those of the hits and fewer than the tokens of the sequence,
  -- and the pool stays valid for the same references and of the same shape.
  pub get_computed_blocks_lem :
      (bm : BlockManager) (seq : Sequence) (held : List ℕ)
      → IsValid bm held
      → 0 < num_tokens seq
      → let (hits, cached, bm') = get_computed_blocks hash bm seq in
        AllBelow bm.num_blocks hits
        × (cached ≡ length hits * bm.block_size)
        × (cached < num_tokens seq)
        × IsValid bm' held
        × SameShape bm bm'
  unfolding get_computed_blocks
  get_computed_blocks_lem bm seq held v pos =
      let rounds = (num_tokens seq - 1) / bm.block_size in
      let (below, few) = find_hits_bounds bm held seq.token_ids rounds 0 none v in
      let same : SameShape bm bm = SameShape-refl bm in
      elim (Bool-cases (not bm.enable_prefix_caching || ltb 0 seq.num_computed_tokens)) [
        | inl off ↦ rw (off, get_computed_blocks) (tt, omega arith, pos, v, same)
        | inr on ↦
            rw (on, get_computed_blocks)
              (
                below,
                refl,
                hits_leave_one (length (find_hits hash bm seq.token_ids rounds 0 none))
                    (num_tokens seq) bm.block_size pos few,
                IsValid-stats v,
                record { same_blocks = refl; same_size = refl; same_caching = refl },
              )
      ]

  -- A block without a hash gets one that is not in the cache yet.
  register-IsValid :
      (bm : BlockManager) (held : List ℕ) (b h : ℕ)
      → IsValid bm held
      → b < bm.num_blocks
      → (bm.blocks b).block_hash ≡ none
      → lookup h bm.cached ≡ none
      → bm.enable_prefix_caching ≡ true
      → IsValid (register hash bm b (bm.blocks b) h) held
  unfolding register
  register-IsValid bm held b h v lt unhashed new on = record {
    size_pos = v.size_pos;
    ids = λ c l. ground (arith, v.ids c);
    free_count = λ c. ground (arith, v.free_count c);
    held_count = λ c. ground (arith, v.held_count c);
    cached_of_hash = λ j c l p.
        ground (
          arith,
          v.cached_of_hash j c,
          v.ids b,
          lookup-insert j h (bm.blocks b).block_id bm.cached,
        );
    hash_of_cached = λ j c p.
        ground (
          arith,
          v.hash_of_cached j c,
          v.ids b,
          lookup-insert j h (bm.blocks b).block_id bm.cached,
        );
    disabled = λ off j. cc;
  }

  register-SameShape :
      (bm : BlockManager) (b h : ℕ) → SameShape bm (register hash bm b (bm.blocks b) h)
  unfolding register
  register-SameShape bm b h = record { same_blocks = refl; same_size = refl; same_caching = refl }

  cache_blocks_lem :
      (seq : Sequence) (held : List ℕ) (n i : ℕ) (prev : Option ℕ) {bm : BlockManager}
      → IsValid bm held
      → AllBelow bm.num_blocks seq.block_table
      → bm.enable_prefix_caching ≡ true
      → i + n ≤ length seq.block_table
      → (bm' : BlockManager) × (cache_blocks hash bm seq n i prev ≡ ok bm')
        × IsValid bm' held
        × SameShape bm bm'
  unfolding cache_blocks
  cache_blocks_lem seq held zero i prev {bm} v below on h = (bm, refl, v, SameShape-refl bm)
  cache_blocks_lem seq held (suc n) i prev {bm} v below on h =
      let (x, at_i) = get_elem?_in_range seq.block_table i (omega arith) in
      let lt : x < bm.num_blocks =
        below_of_AllBelow bm.num_blocks x seq.block_table below
          (count-get_elem? seq.block_table i x at_i) in
      let here : ltb x bm.num_blocks ≡ true = lt→ltb x bm.num_blocks lt in
      elim (Option-cases (bm.blocks x).block_hash) [
        | inr (j, hashed) ↦
            let ih = cache_blocks_lem seq held n (i + 1) (some j) v below on (omega arith) in
            (ih.0, rw (at_i, here, hashed) ih.1, ih.2, ih.3)
        | inl unhashed ↦
            let j = hash_block hash prev (block_tokens bm.block_size seq.token_ids i) in
            elim (Bool-cases ((is_none prev && ltb 0 i) || not (is_none (lookup j bm.cached)))) [
              | inl stop ↦ (bm, rw (at_i, here, unhashed, stop), v, SameShape-refl bm)
              | inr go ↦
                  let v1 = register-IsValid bm held x j v lt unhashed (ground arith) on in
                  let ih = cache_blocks_lem seq held n (i + 1) (some j) v1 below on (omega arith) in
                  (
                    ih.0,
                    rw (at_i, here, unhashed, go) ih.1,
                    ih.2,
                    SameShape-trans (register-SameShape bm x j) ih.3,
                  )
            ]
      ]

  previous_hash_total :
      (seq : Sequence) (i : ℕ) (bm : BlockManager)
      → AllBelow bm.num_blocks seq.block_table
      → i ≤ length seq.block_table
      → (prev : Option ℕ) × (previous_hash hash bm seq i ≡ ok prev)
  unfolding previous_hash
  previous_hash_total seq zero bm below h = (none, refl)
  previous_hash_total seq (suc i) bm below h =
      let (x, at_i) = get_elem?_in_range seq.block_table i (omega arith) in
      let lt : x < bm.num_blocks =
        below_of_AllBelow bm.num_blocks x seq.block_table below
          (count-get_elem? seq.block_table i x at_i) in
      let e : suc i - 1 ≡ i = omega arith in ((bm.blocks x).block_hash, ground (arith, e, at_i, lt))

  -- On a valid pool and for an interval of computed tokens that the table covers,
  -- `cache_full_blocks` does not raise, for any hash, and the pool stays valid for the same
  -- references and of the same shape.
  pub cache_full_blocks_total :
      (seq : Sequence) (before after : ℕ) (rest : List ℕ) {bm : BlockManager}
      → IsValid bm (seq.block_table ++ rest)
      → before ≤ after
      → after ≤ length seq.block_table * bm.block_size
      → (bm' : BlockManager) × (cache_full_blocks hash bm seq before after ≡ ok bm')
        × IsValid bm' (seq.block_table ++ rest)
        × SameShape bm bm'
  unfolding cache_full_blocks
  cache_full_blocks_total seq before after rest {bm} v le room =
      let bs = bm.block_size in
      let t = seq.block_table in
      let below : AllBelow bm.num_blocks t =
        AllBelow-of_count bm.num_blocks t
          (λ b p. ground (arith, v.held_count b, count-append b t rest)) in
      let up : before / bs ≤ after / bs = div_mono before after bs le in
      let fits : after / bs ≤ length t = grind (arith, v.size_pos) in
      elim (Bool-cases (not bm.enable_prefix_caching || (before / bs == after / bs))) [
        | inl idle ↦ (bm, rw idle, v, SameShape-refl bm)
        | inr work ↦
            let (prev, found) = previous_hash_total seq (before / bs) bm below (ground arith) in
            let (bm', e, v', s) =
              cache_blocks_lem seq (t ++ rest) (after / bs - before / bs) (before / bs) prev v below
                (ground arith) (omega arith) in
            (bm', rw (work, found) e, v', s)
      ]
