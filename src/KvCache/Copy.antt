-- ===== src/KvCache/Copy.antt =====
-- pagedllm/kv_cache.py: a sequence that gets copies of its blocks reads the same rows.
use paged_llm.Base.{
  ℕ, zero, suc, ◌+◌, ◌*◌, ◌<◌, ◌≤◌, ◌≡◌, ◌⊎◌, inl, inr, refl, sym, ap, ◌∙◌, List, [], ◌∷◌, map,
  length, get_elem?, get_elem?_in_range, set, get_elem?-set_self, get_elem?-set_ne, length-set,
  count, AllBelow, Result, some, ok, false, Bool-cases, ◌==◌, arith,
}
use paged_llm.BlockManager.{CopyOnWrite}
use paged_llm.KvCache.{Tensors, KvCache, copy_layers, apply_copies, gather, gather_kv}
use paged_llm.KvCache.Laws.{Laws}
use paged_llm.KvCache.Gather.{gather_same}

abbrev pub sources : List CopyOnWrite → List ℕ
sources = map (λ (p : CopyOnWrite). p.src_block)

abbrev pub targets : List CopyOnWrite → List ℕ
targets = map (λ (p : CopyOnWrite). p.dst_block)

-- Each block of the table is as before and no target of a copy, or it is the copy of the one before.
abbrev pub Replaced : List ℕ → List ℕ → List ℕ → List ℕ → Type 0
Replaced src dst old new =
    (i b : ℕ)
    → get_elem? old i ≡ some b
    → ((get_elem? new i ≡ some b) × (count b dst ≡ 0))
      ⊎ ((k d : ℕ) × (get_elem? src k ≡ some b)
          × (get_elem? dst k ≡ some d)
          × (get_elem? new i ≡ some d))

module _ {T Row : Type 0} (ops : Tensors T Row) where
  -- The tensor of a layer after the copies.
  abbrev pub copy : T → List ℕ → List ℕ → T
  copy t src dst = ops.put t dst (ops.select t src)

  -- What the loop does to a list of tensors, from a layer on.
  record Copied (before after : List T) (src dst : List ℕ) (n layer : ℕ) : Type 0 where
    pub same_length : length after ≡ length before
    pub earlier : (l : ℕ) → l < layer → get_elem? after l ≡ get_elem? before l
    pub within :
        (l : ℕ) (t : T)
        → layer ≤ l
        → l < layer + n
        → get_elem? before l ≡ some t
        → get_elem? after l ≡ some (copy t src dst)

  Copied-nil : (ts : List T) (src dst : List ℕ) (layer : ℕ) → Copied ts ts src dst 0 layer
  Copied-nil ts src dst layer = record {
    same_length = refl;
    earlier = λ l h. refl;
    within = λ l t le lt e. absurd (omega (arith, le, lt));
  }

  Copied-suc :
      (ts after : List T) (t : T) (src dst : List ℕ) (n layer : ℕ)
      → get_elem? ts layer ≡ some t
      → layer < length ts
      → Copied (set ts layer (copy t src dst)) after src dst n (layer + 1)
      → Copied ts after src dst (suc n) layer
  Copied-suc ts after t src dst n layer at_layer lt rest = record {
    same_length = rest.same_length ∙ length-set ts layer (copy t src dst);
    earlier = λ l h.
        rest.earlier l (omega arith)
        ∙ get_elem?-set_ne ts layer l (copy t src dst) (λ e. absurd (omega (arith, e, h)));
    within = λ l u le less at_l. elim (Bool-cases (layer == l)) [
      | inl e ↦
          let here : layer ≡ l = ground (arith, e) in
          let same : t ≡ u = some_injective (sym at_layer ∙ ap (get_elem? ts) here ∙ at_l) in
          ap (get_elem? after) (sym here)
          ∙ rest.earlier layer (omega arith)
          ∙ get_elem?-set_self ts layer (copy t src dst) lt
          ∙ ap (λ v. some (copy v src dst)) same
      | inr e ↦
          rest.within l u (ground (arith, e)) (omega (arith, less))
            (get_elem?-set_ne ts layer l (copy t src dst) (λ here. cc_ne layer l e here) ∙ at_l)
    ];
  }
    where
      some_injective : {a b : T} → some a ≡ some b → a ≡ b
      some_injective e = cc

      cc_ne : (a b : ℕ) → (a == b) ≡ false → a ≡ b → ⊥
      cc_ne a b e same = ground arith

  copy_layers_lem :
      (c : KvCache T) (src dst : List ℕ) (n layer : ℕ)
      → layer + n ≤ length c.k_caches
      → layer + n ≤ length c.v_caches
      → (c' : KvCache T) × (copy_layers ops c src dst n layer ≡ ok c')
        × Copied c.k_caches c'.k_caches src dst n layer
        × Copied c.v_caches c'.v_caches src dst n layer
  unfolding copy_layers
  copy_layers_lem c src dst zero layer hk hv =
      (c, refl, Copied-nil c.k_caches src dst layer, Copied-nil c.v_caches src dst layer)
  copy_layers_lem c src dst (suc n) layer hk hv =
      let (kc, at_k) = get_elem?_in_range c.k_caches layer (omega arith) in
      let (vc, at_v) = get_elem?_in_range c.v_caches layer (omega arith) in
      let c1 : KvCache T = record c {
        k_caches = set c.k_caches layer (copy kc src dst);
        v_caches = set c.v_caches layer (copy vc src dst);
      } in
      let (c', eq, copied_k, copied_v) =
        copy_layers_lem c1 src dst n (layer + 1)
          (omega (arith, length-set c.k_caches layer (copy kc src dst)))
          (omega (arith, length-set c.v_caches layer (copy vc src dst))) in
      (
        c',
        rw (at_k, at_v) eq,
        Copied-suc c.k_caches c'.k_caches kc src dst n layer at_k (omega arith) copied_k,
        Copied-suc c.v_caches c'.v_caches vc src dst n layer at_v (omega arith) copied_v,
      )

  module _ (row : T → ℕ → Row) (num_blocks bs : ℕ) (laws : Laws ops row num_blocks bs) where
    -- The tensors of every layer give the same for the new table as they did for the old one.
    abbrev pub SameRows : KvCache T → List ℕ → List ℕ → ℕ → Result (KvCache T) → Type 0
    SameRows c old new len r =
        (c' : KvCache T) × (r ≡ ok c')
        × ((l : ℕ) (kc vc : T)
            → l < c.num_layers
            → get_elem? c.k_caches l ≡ some kc
            → get_elem? c.v_caches l ≡ some vc
            → (kc' vc' : T) × (get_elem? c'.k_caches l ≡ some kc')
              × (get_elem? c'.v_caches l ≡ some vc')
              × (gather_kv ops bs kc' vc' new len ≡ gather_kv ops bs kc vc old len))

    -- The copies are to distinct blocks.
    pub record Copies (cows : List CopyOnWrite) : Type 0 where
      pub sources_below : AllBelow num_blocks (sources cows)
      pub targets_below : AllBelow num_blocks (targets cows)
      pub distinct :
          (i j x : ℕ)
          → get_elem? (targets cows) i ≡ some x
          → get_elem? (targets cows) j ≡ some x
          → i ≡ j

    length-sources : (cows : List CopyOnWrite) → length (sources cows) ≡ length (targets cows)
    length-sources [] = refl
    length-sources (o ∷ os) = ap suc (length-sources os)

    copied_rows :
        (t : T) (cows : List CopyOnWrite) (old new : List ℕ)
        → Copies cows
        → Replaced (sources cows) (targets cows) old new
        → (i b o : ℕ) → get_elem? old i ≡ some b
        → o < bs
        → (d : ℕ) × (get_elem? new i ≡ some d)
          × (row (copy t (sources cows) (targets cows)) (d * bs + o) ≡ row t (b * bs + o))
    copied_rows t cows old new copies replaced i b o at_b lt = elim (replaced i b at_b) [
      | inl (at_new, none_of) ↦ (
        b,
        at_new,
        laws.not_moved t (sources cows) (targets cows) b o copies.sources_below copies.targets_below
            (length-sources cows) none_of lt,
      )
      | inr (k, d, at_src, at_dst, at_new) ↦ (
        d,
        at_new,
        laws.moved t (sources cows) (targets cows) k b d o copies.sources_below copies.targets_below
            copies.distinct (length-sources cows) at_src at_dst lt,
      )
    ]

    -- Copy-on-write keeps what a sequence reads, for tensors that keep the laws. If every layer has
    -- tensors, the copies are between blocks of the pool and to distinct ones, two tables of one
    -- length name blocks of the pool and cover the tokens, and each block of the new table is that
    -- of the old one and no target of a copy, or the copy of it, then `apply_copies` does not
    -- raise, and `gather_kv` of each layer over the new table returns what it did over the old one.
    pub apply_copies-gather_kv :
        (c : KvCache T) (cows : List CopyOnWrite) (old new : List ℕ) (len : ℕ)
        → 0 < bs
        → c.num_layers ≤ length c.k_caches
        → c.num_layers ≤ length c.v_caches
        → Copies cows
        → Replaced (sources cows) (targets cows) old new
        → AllBelow num_blocks old
        → AllBelow num_blocks new
        → length new ≡ length old
        → len ≤ length old * bs
        → SameRows c old new len (apply_copies ops c cows)
    unfolding apply_copies
    apply_copies-gather_kv c [] old new len pos hk hv copies replaced below below' size covers =
        let same : (t : T) → gather ops bs t new len ≡ gather ops bs t old len = λ t.
          gather_same ops row num_blocks bs laws t t old new len pos below below' size covers
            (λ i b o at_b lt. elim (replaced i b at_b) [
              | inl (at_new, none_of) ↦ (b, at_new, refl)
              | inr (k, d, at_src, at_dst, at_new) ↦ cc
            ]) in
        (c, refl, λ l kc vc lt at_k at_v. (kc, vc, at_k, at_v, rw (same kc, same vc)))
    apply_copies-gather_kv c (w ∷ ws) old new len pos hk hv copies replaced below below' size
          covers =
        let cows = w ∷ ws in
        let (c', eq, copied_k, copied_v) =
          copy_layers_lem c (sources cows) (targets cows) c.num_layers 0 (omega arith)
            (omega arith) in
        let same : (t : T)
            → gather ops bs (copy t (sources cows) (targets cows)) new len
              ≡ gather ops bs t old len =
          λ t.
            gather_same ops row num_blocks bs laws t (copy t (sources cows) (targets cows)) old new
              len pos below below' size covers (copied_rows t cows old new copies replaced) in
        (
          c',
          eq,
          λ l kc vc lt at_k at_v. (
            copy kc (sources cows) (targets cows),
            copy vc (sources cows) (targets cows),
            copied_k.within l kc (omega arith) (omega (arith, lt)) at_k,
            copied_v.within l vc (omega arith) (omega (arith, lt)) at_v,
            rw (same kc, same vc),
          ),
        )
