-- ===== src/BlockManager/Hashed.antt =====
-- pagedllm/block_manager.py: the prefix cache on a pool where a block that is not cached is not shared.
use paged_llm.Base.{
  ℕ, zero, suc, ◌+◌, ◌-◌, ◌/◌, ◌<◌, ◌≤◌, ◌≡◌, ◌≢◌, ◌⊎◌, refl, ap, sym, subst, ◌∙◌, get_elem?, All,
  bind_inversion, ◌>>=◌, div_mono, List, Option, Option-cases, none, some, ltb, ◌==◌, ◌&&◌, ◌||◌,
  not, Bool-cases, inl, inr, lookup, ok, arith, count, count-get_elem?,
}
use paged_llm.Sequence.{Sequence}
use paged_llm.BlockManager.{BlockManager, block}
use paged_llm.BlockManager.PrefixCache.{
  find_hits, get_computed_blocks, register, cache_blocks, cache_full_blocks, block_tokens,
  hash_block, is_none, previous_hash,
}
use paged_llm.BlockManager.Invariant.{IsValid, refs}
use paged_llm.BlockManager.Disjoint.{count_unique}
use paged_llm.BlockManager.Private.{hash_of, Single, Tame, Clean}

module _ (hash : Option ℕ → List ℕ → ℕ) where
  find_hits_hashed :
      (bm : BlockManager) (held tokens : List ℕ) (n i : ℕ) (prev : Option ℕ)
      → IsValid bm held
      → All (λ b. hash_of bm b ≢ none) (find_hits hash bm tokens n i prev)
  unfolding find_hits
  find_hits_hashed bm held tokens zero i prev v = tt
  find_hits_hashed bm held tokens (suc n) i prev v =
      let h = hash_block hash prev (block_tokens bm.block_size tokens i) in
      elim (Option-cases (lookup h bm.cached)) [
        | inl miss ↦ rw (miss, find_hits) tt
        | inr (b, hit) ↦
            let hashed = (v.hash_of_cached h b hit).1 in
            let rest = find_hits_hashed bm held tokens n (i + 1) (some h) v in
            rw (hit, find_hits) ((λ unhashed. absurd (ground (arith, sym hashed ∙ unhashed))), rest)
      ]

  -- Each hit has a hash, and no block's count or hash changes.
  pub get_computed_blocks_hashed :
      (bm : BlockManager) (seq : Sequence) (held : List ℕ)
      → IsValid bm held
      → let (hits, cached, bm') = get_computed_blocks hash bm seq in
        All (λ b. hash_of bm' b ≢ none) hits × Tame bm bm'
  unfolding get_computed_blocks
  get_computed_blocks_hashed bm seq held v =
      elim (Bool-cases (not bm.enable_prefix_caching || ltb 0 seq.num_computed_tokens)) [
        | inl off ↦
            rw (off, get_computed_blocks) (tt, record { single = λ s. s; unhashed = λ b h. h })
        | inr on ↦
            rw (on, get_computed_blocks)
              (
                find_hits_hashed bm held seq.token_ids _ 0 none v,
                record { single = λ s. s; unhashed = λ b h. h },
              )
      ]

  -- Only blocks of the table in an interval of indices get a hash.
  pub record Marks (bm bm' : BlockManager) (table : List ℕ) (upto : ℕ) : Type 0 where
    pub same_refs : (b : ℕ) → refs bm' b ≡ refs bm b
    pub unhashed_before : (b : ℕ) → hash_of bm' b ≡ none → hash_of bm b ≡ none
    pub unhashed_after :
        (b : ℕ)
        → hash_of bm b ≡ none
        → (hash_of bm' b ≡ none) ⊎ ((k : ℕ) × (k < upto) × (get_elem? table k ≡ some b))

  Marks-refl : (bm : BlockManager) (table : List ℕ) (upto : ℕ) → Marks bm bm table upto
  Marks-refl bm table upto = record {
    same_refs = λ b. refl;
    unhashed_before = λ b e. e;
    unhashed_after = λ b e. inl e;
  }

  Marks-trans :
      {a b c : BlockManager} {table : List ℕ} {upto : ℕ}
      → Marks a b table upto
      → Marks b c table upto
      → Marks a c table upto
  Marks-trans s t = record {
    same_refs = λ b. t.same_refs b ∙ s.same_refs b;
    unhashed_before = λ b e. s.unhashed_before b (t.unhashed_before b e);
    unhashed_after = λ b e. elim (s.unhashed_after b e) [
      | inl still ↦ t.unhashed_after b still
      | inr marked ↦ inr marked
    ];
  }

  register-Marks :
      (bm : BlockManager) (table : List ℕ) (x h i upto : ℕ)
      → get_elem? table i ≡ some x
      → i < upto
      → Marks bm (register hash bm x (bm.blocks x) h) table upto
  unfolding register
  register-Marks bm table x h i upto at_i lt = record {
    same_refs = λ b. ground arith;
    unhashed_before = λ b e. ground arith;
    unhashed_after = λ b e. elim (Bool-cases (x == b)) [
      | inl here ↦ inr (i, lt, at_i ∙ ap some (ground (arith, here)))
      | inr there ↦ inl (ground (arith, there))
    ];
  }

  cache_blocks-Marks :
      (seq : Sequence) (n i upto : ℕ) (prev : Option ℕ) (bm bm' : BlockManager)
      → i + n ≤ upto
      → cache_blocks hash bm seq n i prev ≡ ok bm'
      → Marks bm bm' seq.block_table upto
  unfolding cache_blocks block
  cache_blocks-Marks seq zero i upto prev bm bm' le e =
      let same : bm ≡ bm' = cc in
      subst (λ q. Marks bm q seq.block_table upto) same (Marks-refl bm seq.block_table upto)
  cache_blocks-Marks seq (suc n) i upto prev bm bm' le e =
      elim (Option-cases (get_elem? seq.block_table i)) [
        | inl missing ↦ absurd (ground (arith, rw missing at e))
        | inr (x, at_i) ↦ elim (Bool-cases (ltb x bm.num_blocks)) [
          | inr unknown ↦ absurd (ground (arith, rw (at_i, unknown) at e))
          | inl known ↦ elim (Option-cases (bm.blocks x).block_hash) [
            | inr (j, hashed) ↦
                cache_blocks-Marks seq n (i + 1) upto (some j) bm bm' (omega (arith, le))
                  (rw (at_i, known, hashed) at e)
            | inl unhashed ↦
                let j = hash_block hash prev (block_tokens bm.block_size seq.token_ids i) in
                elim (Bool-cases
                  ((is_none prev && ltb 0 i) || not (is_none (lookup j bm.cached)))) [
                    | inl stop ↦
                        let same : ok bm ≡ ok bm' = rw (at_i, known, unhashed, stop) at e in
                        let same' : bm ≡ bm' = cc in
                        subst (λ q. Marks bm q seq.block_table upto) same'
                          (Marks-refl bm seq.block_table upto)
                    | inr go ↦
                        Marks-trans
                          (register-Marks bm seq.block_table x j i upto at_i (omega (arith, le)))
                          (cache_blocks-Marks seq n (i + 1) upto (some j)
                            (register hash bm x (bm.blocks x) j) bm' (omega (arith, le))
                            (rw (at_i, known, unhashed, go) at e))
                  ]
          ]
        ]
      ]

  pub cache_full_blocks-Marks :
      (seq : Sequence) (before after : ℕ) (bm bm' : BlockManager)
      → before ≤ after
      → cache_full_blocks hash bm seq before after ≡ ok bm'
      → Marks bm bm' seq.block_table (after / bm.block_size)
  unfolding cache_full_blocks
  cache_full_blocks-Marks seq before after bm bm' le e =
      let bs = bm.block_size in
      let upto = after / bs in
      elim (Bool-cases (not bm.enable_prefix_caching || (before / bs == after / bs))) [
        | inl idle ↦
            let same : ok bm ≡ ok bm' = rw idle at e in
            let same' : bm ≡ bm' = cc in
            subst (λ q. Marks bm q seq.block_table upto) same' (Marks-refl bm seq.block_table upto)
        | inr work ↦
            let e' : (previous_hash hash bm seq (before / bs)
                  >>= (λ p. cache_blocks hash bm seq (after / bs - before / bs) (before / bs) p))
                ≡ ok bm' =
              rw work at e in
            let (prev, e1, e2) =
              bind_inversion (previous_hash hash bm seq (before / bs))
                (λ p. cache_blocks hash bm seq (after / bs - before / bs) (before / bs) p) bm' e' in
            cache_blocks-Marks seq (after / bs - before / bs) (before / bs) upto prev bm bm'
              (omega (arith, div_mono before after bs le)) e2
      ]

-- What the marks leave of tables that hold their blocks.
module _ (hash : Option ℕ → List ℕ → ℕ) {bm bm' : BlockManager} {held table : List ℕ} {upto : ℕ}
    (marks : Marks hash bm bm' table upto) (v : IsValid bm held) (single : Single bm) where
  pub Marks-Single : Single bm'
  Marks-Single b e = omega (arith, marks.same_refs b, single b (marks.unhashed_before b e))

  -- A table beside the marked one.
  pub Marks-Clean_other :
      (other : List ℕ) (from : ℕ)
      → ((b : ℕ) → count b table + count b other ≤ count b held)
      → Clean bm other from
      → Clean bm' other from
  Marks-Clean_other other from both clean i b le at_i =
      let unhashed = clean i b le at_i in
      elim (marks.unhashed_after b unhashed) [
        | inl still ↦ still
        | inr (k, lt, at_k) ↦ absurd (
            omega (
              arith,
              single b unhashed,
              v.held_count b,
              both b,
              count-get_elem? table k b at_k,
              count-get_elem? other i b at_i,
            ))
      ]

  -- The marked table itself, from the end of the marks on.
  pub Marks-Clean_own :
      (from : ℕ)
      → from ≤ upto
      → ((b : ℕ) → count b table ≤ count b held)
      → Clean bm table from
      → Clean bm' table upto
  Marks-Clean_own from le own clean i b le' at_i =
      let unhashed = clean i b (omega (arith, le, le')) at_i in
      elim (marks.unhashed_after b unhashed) [
        | inl still ↦ still
        | inr (k, lt, at_k) ↦
            let once : count b table ≤ 1 =
              omega (arith, single b unhashed, v.held_count b, own b) in
            absurd (omega (arith, count_unique table k i b at_k at_i once, lt, le'))
      ]
