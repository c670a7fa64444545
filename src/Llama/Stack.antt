-- ===== src/Llama/Stack.antt =====
-- pagedllm/model/llama.py: all layers over the paged cache.
use paged_llm.Base.{
  ℕ, ◌+◌, ◌<◌, ◌≤◌, ◌≡◌, inl, inr, refl, sym, ap, subst, ◌∙◌, List, [], ◌∷◌, ◌++◌, map, concat_map,
  All, ◌≢◌, All-mono, All-map, All-of_map, concat_map-map, length, get_elem?, get_elem?_bound, set,
  get_elem?-set_self, get_elem?-set_ne, Bool, true, false, Bool-cases, eq→==, ◌==◌, Result, some,
  ok, arith,
}
use paged_llm.BlockManager.{BlockManager}
use paged_llm.KvCache.{Tensors, KvCache, gather}
use paged_llm.KvCache.Laws.{Laws}
use paged_llm.Llama.{Floats, DecoderLayer, Llama, AttentionMetadata, layers_forward}
use paged_llm.Llama.Dense.{Session, positions_of, hidden, dense_layer, dense_layers}
use paged_llm.Llama.Layer.{part_of, Filled, all_x, all_positions, length-hidden}
use paged_llm.Llama.Cached.{IsPagedAttention, After}
use paged_llm.Llama.Layers.{Describes, InTables, layer_forward_lem}

module _ {F Matrix T : Type 0} (o : Floats F Matrix)
    (attend : List (List (List F))
      → List (List (List F))
      → List (List (List F))
      → (ℕ → ℕ → Bool)
      → List (List (List F)))
    (keeps : (q k v : List (List (List F))) (mask : ℕ → ℕ → Bool)
      → length (attend q k v mask) ≡ length q)
    (m : Llama F Matrix) (ops : Tensors T (List (List F))) (row : T → ℕ → List (List F))
    (bm : BlockManager) (laws : Laws ops row bm.num_blocks bm.block_size) (all : List ℕ)
    (pos : 0 < bm.block_size)
    (attn_fn : List (List (List F))
      → T
      → T
      → List (List ℕ)
      → List ℕ
      → List ℕ
      → ℕ
      → F
      → Result (List (List (List F))))
    (paged : IsPagedAttention o attend keeps m ops bm.block_size attn_fn) where
  -- The tensors of a layer, and that they hold what the sequences have: for `len` of the positions of
  -- each sequence.
  abbrev pub HoldsAt :
      KvCache T → ℕ → (Session F → ℕ) → (Session F → Session F) → List (Session F) → Type 0
  HoldsAt c j len f ss =
      (kc vc : T) × (get_elem? c.k_caches j ≡ some kc)
      × (get_elem? c.v_caches j ≡ some vc)
      × All
          (λ s.
            (gather ops bm.block_size kc s.part.seq.block_table (len s) ≡ (f s).keys j)
            × (gather ops bm.block_size vc s.part.seq.block_table (len s) ≡ (f s).values j))
          ss

  abbrev pub known : Session F → ℕ
  known s = s.part.start

  abbrev pub grown : Session F → ℕ
  grown s = s.part.start + s.part.num

  abbrev pub dense : List (DecoderLayer F Matrix) → ℕ → Session F → Session F
  dense ws i = dense_layers o attend m ws i

  -- The layers leave the part alone, and the keys and values of earlier layers.
  dense-earlier :
      (ws : List (DecoderLayer F Matrix)) (i : ℕ) (s : Session F) (j : ℕ)
      → j < i
      → ((dense ws i s).keys j ≡ s.keys j) × ((dense ws i s).values j ≡ s.values j)
  unfolding dense_layers
  dense-earlier [] i s j lt = (refl, refl)
  dense-earlier (w ∷ ws) i s j lt =
      let other : (i == j) ≡ false = ground arith in
      let rest = dense-earlier ws (i + 1) (dense_layer o attend m w i s) j (omega arith) in
      (rest.0 ∙ rw other refl, rest.1 ∙ rw other refl)

  module _ (w : DecoderLayer F Matrix) (i : ℕ) where
    abbrev layer : Session F → Session F
    layer = dense_layer o attend m w i

    parts_same : (ss : List (Session F)) → map part_of (map layer ss) ≡ map part_of ss
    unfolding dense_layer
    parts_same [] = refl
    parts_same (s ∷ ss) = ap (◌∷◌ s.part) (parts_same ss)

    positions_same : (ss : List (Session F)) → all_positions (map layer ss) ≡ all_positions ss
    unfolding dense_layer
    positions_same [] = refl
    positions_same (s ∷ ss) = ap (λ q. positions_of s.part ++ q) (positions_same ss)

    x_same : (ss : List (Session F)) → all_x (map layer ss) ≡ concat_map (hidden o attend m w i) ss
    unfolding dense_layer
    x_same [] = refl
    x_same (s ∷ ss) = ap (λ q. hidden o attend m w i s ++ q) (x_same ss)

    layer-Filled : (ss : List (Session F)) → Filled ss → Filled (map layer ss)
    unfolding dense_layer
    layer-Filled [] filled = tt
    layer-Filled (s ∷ ss) (size, filled) =
        (length-hidden o attend keeps m w i s size, layer-Filled ss filled)

    -- Another layer has what it had.
    later_same :
        (c : KvCache T) (kc vc : T) (j : ℕ) (ss : List (Session F))
        → i < j
        → HoldsAt c j known (λ s. s) ss
        → HoldsAt
            (record c { k_caches = set c.k_caches i kc; v_caches = set c.v_caches i vc })
            j
            known
            (λ s. s)
            (map layer ss)
    unfolding dense_layer
    later_same c kc vc j ss lt (kj, vj, at_k, at_v, holds) =
        let apart : i ≢ j = λ e. absurd (omega (arith, e)) in
        let other : (i == j) ≡ false = ground arith in
        (
          kj,
          vj,
          get_elem?-set_ne c.k_caches i j kc apart ∙ at_k,
          get_elem?-set_ne c.v_caches i j vc apart ∙ at_v,
          All-map _ layer ss (All-mono ss (λ s (hk, hv). (rw other hk, rw other hv)) holds),
        )

    -- This layer has what its write left.
    this_held :
        (ws : List (DecoderLayer F Matrix)) (c c' : KvCache T) (kc vc : T) (ss : List (Session F))
        → i < length c.k_caches
        → i < length c.v_caches
        → (get_elem? c'.k_caches i ≡ get_elem? (set c.k_caches i kc) i)
          × (get_elem? c'.v_caches i ≡ get_elem? (set c.v_caches i vc) i)
        → After o attend keeps m ops bm.block_size w i kc vc ss
        → HoldsAt c' i grown (dense (w ∷ ws) i) ss
    unfolding dense_layers
    this_held ws c c' kc vc ss lk lv (ek, ev) after =
        let self : (i == i) ≡ true = eq→== i i refl in
        (
          kc,
          vc,
          ek ∙ get_elem?-set_self c.k_caches i kc lk,
          ev ∙ get_elem?-set_self c.v_caches i vc lv,
          All-mono ss
              (λ s (gk, gv).
                let (same_k, same_v) = dense-earlier ws (i + 1) (layer s) i (omega arith) in
                (gk ∙ sym (same_k ∙ rw self refl), gv ∙ sym (same_v ∙ rw self refl)))
              after,
        )

    later_held :
        (ws : List (DecoderLayer F Matrix)) (c : KvCache T) (j : ℕ) (ss : List (Session F))
        → HoldsAt c j grown (dense ws (i + 1)) (map layer ss)
        → HoldsAt c j grown (dense (w ∷ ws) i) ss
    unfolding dense_layers
    later_held ws c j ss (kc, vc, at_k, at_v, holds) =
        (kc, vc, at_k, at_v, All-of_map _ layer ss holds)

  -- The layers have run: the hidden states are those of each sequence alone, each layer holds the keys
  -- and values of each, and the earlier layers are as they were.
  abbrev pub AllRan :
      List (DecoderLayer F Matrix)
      → ℕ
      → List (Session F)
      → KvCache T
      → Result (List (List F) × KvCache T)
      → Type 0
  AllRan ws i ss c r =
      (c' : KvCache T) × (r ≡ ok (concat_map (λ s. (dense ws i s).x) ss, c'))
      × ((j : ℕ) → i ≤ j → j < i + length ws → HoldsAt c' j grown (dense ws i) ss)
      × ((j : ℕ)
          → j < i
          → (get_elem? c'.k_caches j ≡ get_elem? c.k_caches j)
            × (get_elem? c'.v_caches j ≡ get_elem? c.v_caches j))

  pub layers_forward_lem :
      (ws : List (DecoderLayer F Matrix)) (i : ℕ) (meta : AttentionMetadata) (ss : List (Session F))
      (c : KvCache T)
      → Describes o attend keeps m ops row bm laws all pos attn_fn paged meta (map part_of ss)
      → InTables o attend keeps m ops row bm laws all pos attn_fn paged ss
      → Filled ss
      → ((j : ℕ) → i ≤ j → j < i + length ws → HoldsAt c j known (λ s. s) ss)
      → AllRan ws i ss c (layers_forward o ops attn_fn m ws i (all_x ss) (all_positions ss) c meta)
  unfolding layers_forward dense_layers
  layers_forward_lem [] i meta ss c d tables filled holds =
      (c, refl, λ j le lt. absurd (omega (arith, le, lt)), λ j lt. (refl, refl))
  layers_forward_lem (w ∷ ws) i meta ss c d tables filled holds =
      let (kc, vc, at_k, at_v, before) = holds i (omega arith) (omega arith) in
      let (kc1, vc1, eq1, after) =
        layer_forward_lem o attend keeps m ops row bm laws all pos attn_fn paged w i meta ss c kc vc
          d tables filled at_k at_v before in
      let c1 = record c { k_caches = set c.k_caches i kc1; v_caches = set c.v_caches i vc1 } in
      let ss1 = map (layer w i) ss in
      let (c2, eq2, held, earlier) =
        layers_forward_lem ws (i + 1) meta ss1 c1
          (subst (Describes o attend keeps m ops row bm laws all pos attn_fn paged meta)
            (sym (parts_same w i ss)) d)
          (rw (positions_same w i ss) tables) (layer-Filled w i ss filled)
          (λ j le lt.
            later_same w i c kc1 vc1 j ss (omega (arith, le))
              (holds j (omega (arith, le)) (omega (arith, lt)))) in
      let eq2' : layers_forward o ops attn_fn m ws (i + 1) (concat_map (hidden o attend m w i) ss)
            (all_positions ss) c1 meta
          ≡ ok (concat_map (λ s. (dense (w ∷ ws) i s).x) ss, c2) =
        ap (λ x. layers_forward o ops attn_fn m ws (i + 1) x (all_positions ss) c1 meta)
          (sym (x_same w i ss))
        ∙ ap (λ p. layers_forward o ops attn_fn m ws (i + 1) (all_x ss1) p c1 meta)
            (sym (positions_same w i ss))
        ∙ eq2
        ∙ ap (λ x. ok (x, c2)) (concat_map-map (λ s. (dense ws (i + 1) s).x) (layer w i) ss) in
      (
        c2,
        rw eq1 eq2',
        λ j le lt. elim (Bool-cases (i == j)) [
          | inr e ↦ later_held w i ws c2 j ss (held j (ground (arith, e)) (omega (arith, lt)))
          | inl e ↦
              let here : i ≡ j = ground (arith, e) in
              subst (λ k. HoldsAt c2 k grown (dense (w ∷ ws) i) ss) here
                (this_held w i ws c c2 kc1 vc1 ss (get_elem?_bound c.k_caches i at_k)
                  (get_elem?_bound c.v_caches i at_v) (earlier i (omega arith)) after)
        ],
        λ j lt.
            let apart : i ≢ j = λ e. absurd (omega (arith, e, lt)) in
            let (ek, ev) = earlier j (omega (arith, lt)) in
            (
              ek ∙ get_elem?-set_ne c.k_caches i j kc1 apart,
              ev ∙ get_elem?-set_ne c.v_caches i j vc1 apart,
            ),
      )
