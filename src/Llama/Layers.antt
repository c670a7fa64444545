-- ===== src/Llama/Layers.antt =====
-- pagedllm/model/llama.py: the layers over the paged cache compute what they compute for each sequence
-- alone, and leave its keys and values in the cache.
use paged_llm.Base.{
  ℕ, ◌<◌, ◌≤◌, ◌≡◌, refl, ap, ◌∙◌, List, [], ◌∷◌, ◌++◌, map, concat_map, length, count, get_elem?,
  get_elem?_bound, set, get_elem?-set_self, AllBelow, Bool, Result, some, ok,
}
use paged_llm.BlockManager.{BlockManager}
use paged_llm.KvCache.{Tensors, KvCache, write_cache}
use paged_llm.KvCache.Laws.{Laws}
use paged_llm.KvCache.Parts.{Part, tables_of, AllOwn, Placed}
use paged_llm.KvCache.Batch.{ReadsOwn, Sized, reads_own}
use paged_llm.Attention.Segments.{IsBatch}
use paged_llm.Llama.{
  Floats, DecoderLayer, Llama, AttentionMetadata, attention_forward, layer_forward,
}
use paged_llm.Llama.Rows.{select_rows_lem}
use paged_llm.Llama.Dense.{Session, new_q, new_k, new_v, attended, hidden}
use paged_llm.Llama.Layer.{
  part_of, padded, Filled, all_x, all_positions, all_projected, all_rotated, finish_all,
  length-rotated, length-projected,
}
use paged_llm.Llama.Padding.{each_alone-padded, total_q-padded}
use paged_llm.Llama.Cached.{IsPagedAttention, Before, After, all_attended, total_queries}

module _ {F Matrix T : Type 0} (o : Floats F Matrix)
    (attend : List (List (List F))
      → List (List (List F))
      → List (List (List F))
      → (ℕ → ℕ → Bool)
      → List (List (List F)))
    (keeps : (q k v : List (List (List F))) (mask : ℕ → ℕ → Bool)
      → length (attend q k v mask) ≡ length q)
    (m : Llama F Matrix) (ops : Tensors T (List (List F))) (row : T → ℕ → List (List F))
    (bm : BlockManager) (laws : Laws ops row bm.num_blocks bm.block_size) (all : List ℕ)
    (pos : 0 < bm.block_size)
    (attn_fn : List (List (List F))
      → T
      → T
      → List (List ℕ)
      → List ℕ
      → List ℕ
      → ℕ
      → F
      → Result (List (List (List F))))
    (paged : IsPagedAttention o attend keeps m ops bm.block_size attn_fn) where
  -- The metadata is that of the parts, and each owns the blocks that it writes.
  pub record Describes (meta : AttentionMetadata) (gs : List Part) : Type 0 where
    pub owners : AllOwn bm all gs
    pub placed : Placed bm gs meta.slot_mapping
    pub held : (b : ℕ) → count b (tables_of gs) ≤ count b all
    pub width : ℕ
    pub batch :
        IsBatch meta.cu_seqlens_q meta.seq_lens_k meta.block_tables 0 0 (map (padded width) gs)
    pub lens : length meta.seq_lens_k ≡ length (map (padded width) gs)

  -- Every position has a row in the tables of the rotary embedding.
  abbrev pub InTables : List (Session F) → Type 0
  InTables ss =
      AllBelow (length m.cos) (all_positions ss) × AllBelow (length m.sin) (all_positions ss)

  module _ (w : DecoderLayer F Matrix) (i : ℕ) (meta : AttentionMetadata) where
    keys_Sized :
        (ss : List (Session F))
        → Filled ss
        → Sized ops row bm laws all pos part_of (new_k o attend m w) ss
    keys_Sized [] filled = tt
    keys_Sized (s ∷ ss) (size, filled) = (
      length-rotated o attend keeps m w i m.num_kv_heads (λ l. l.k_proj) s size,
      keys_Sized ss filled,
    )

    values_Sized :
        (ss : List (Session F))
        → Filled ss
        → Sized ops row bm laws all pos part_of (new_v o attend m w) ss
    values_Sized [] filled = tt
    values_Sized (s ∷ ss) (size, filled) = (
      length-projected o attend keeps m w i m.num_kv_heads (λ l. l.v_proj) s ∙ size,
      values_Sized ss filled,
    )

    After-of_reads :
        (kc vc kc' vc' : T) (ss : List (Session F))
        → Before o attend keeps m ops bm.block_size w i kc vc ss
        → ReadsOwn ops row bm laws all pos part_of (new_k o attend m w) kc kc' ss
        → ReadsOwn ops row bm laws all pos part_of (new_v o attend m w) vc vc' ss
        → After o attend keeps m ops bm.block_size w i kc' vc' ss
    After-of_reads kc vc kc' vc' [] before rk rv = tt
    After-of_reads kc vc kc' vc' (s ∷ ss) ((bk, bv), before) (rk, rks) (rv, rvs) = (
      (rk ∙ ap (λ q. q ++ new_k o attend m w s) bk, rv ∙ ap (λ q. q ++ new_v o attend m w s) bv),
      After-of_reads kc vc kc' vc' ss before rks rvs,
    )

    -- The cache after the layer.
    abbrev pub Ran : List (Session F) → KvCache T → Result (List (List F) × KvCache T) → Type 0
    Ran ss c r =
        (kc vc : T) × (r
          ≡ ok (
            concat_map (hidden o attend m w i) ss,
            record c { k_caches = set c.k_caches i kc; v_caches = set c.v_caches i vc },
          ))
        × After o attend keeps m ops bm.block_size w i kc vc ss

    pub layer_forward_lem :
        (ss : List (Session F)) (c : KvCache T) (kc vc : T)
        → Describes meta (map part_of ss)
        → InTables ss
        → Filled ss
        → get_elem? c.k_caches i ≡ some kc
        → get_elem? c.v_caches i ≡ some vc
        → Before o attend keeps m ops bm.block_size w i kc vc ss
        → Ran ss c (layer_forward o ops attn_fn m w i (all_x ss) (all_positions ss) c meta)
    unfolding layer_forward attention_forward write_cache
    layer_forward_lem ss c kc vc d tables filled at_k at_v before =
        let k_new = concat_map (new_k o attend m w) ss in
        let v_new = concat_map (new_v o attend m w) ss in
        let kc' = ops.index_copy kc meta.slot_mapping k_new in
        let vc' = ops.index_copy vc meta.slot_mapping v_new in
        let rk =
          reads_own ops row bm laws all pos part_of (new_k o attend m w) ss meta.slot_mapping kc
            d.owners d.placed (keys_Sized ss filled) d.held in
        let rv =
          reads_own ops row bm laws all pos part_of (new_v o attend m w) ss meta.slot_mapping vc
            d.owners d.placed (values_Sized ss filled) d.held in
        let after = After-of_reads kc vc kc' vc' ss before rk rv in
        let queries = concat_map (new_q o attend m w) ss in
        let out : attn_fn queries kc' vc' meta.block_tables meta.cu_seqlens_q meta.seq_lens_k
              meta.max_q_len m.scale
            ≡ ok (concat_map (attended o attend m w i) ss) =
          paged queries kc' vc' meta.block_tables meta.cu_seqlens_q meta.seq_lens_k meta.max_q_len
            (map (padded d.width) (map part_of ss)) d.batch d.lens
            (total_q-padded ops bm all pos d.width (map part_of ss)
              ∙ total_queries o attend keeps m ops bm.block_size w i ss filled)
          ∙ ap ok (
              each_alone-padded ops bm all pos attend kc' vc' queries d.width 0 (map part_of ss)
                d.owners)
          ∙ ap ok (
              all_attended o attend keeps m ops bm.block_size w i ss kc' vc' [] queries 0 refl refl
                filled after) in
        (
          kc',
          vc',
          rw (
            select_rows_lem m.cos (all_positions ss) tables.0,
            select_rows_lem m.sin (all_positions ss) tables.1,
            all_rotated o attend keeps m w i m.num_kv_heads (λ l. l.k_proj) ss filled,
            all_rotated o attend keeps m w i m.num_heads (λ l. l.q_proj) ss filled,
            all_projected o attend keeps m w i m.num_kv_heads (λ l. l.v_proj) ss,
            at_k,
            at_v,
            get_elem?-set_self c.k_caches i kc' (get_elem?_bound c.k_caches i at_k),
            get_elem?-set_self c.v_caches i vc' (get_elem?_bound c.v_caches i at_v),
            out,
            finish_all o attend keeps m w i ss filled,
          ),
          after,
        )
