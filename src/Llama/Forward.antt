-- ===== src/Llama/Forward.antt =====
-- pagedllm/model/llama.py: the whole model over the paged cache.
use paged_llm.Base.{
  ℕ, ◌<◌, ◌≡◌, ap, List, map, concat_map, length, AllBelow, Bool, Result, ok, arith,
}
use paged_llm.BlockManager.{BlockManager}
use paged_llm.KvCache.{Tensors, KvCache}
use paged_llm.KvCache.Laws.{Laws}
use paged_llm.Llama.{Floats, Llama, AttentionMetadata, rms_norm, model_forward, forward}
use paged_llm.Llama.Rows.{row_or, select_rows_lem, map-concat_map, map-map}
use paged_llm.Llama.Dense.{Session}
use paged_llm.Llama.Layer.{part_of, Filled, all_x, all_positions}
use paged_llm.Llama.Cached.{IsPagedAttention}
use paged_llm.Llama.Stack.{HoldsAt, known, grown, dense, layers_forward_lem}
use paged_llm.Llama.Layers.{Describes, InTables}

module _ {F Matrix T : Type 0} (o : Floats F Matrix)
    (attend : List (List (List F))
      → List (List (List F))
      → List (List (List F))
      → (ℕ → ℕ → Bool)
      → List (List (List F)))
    (keeps : (q k v : List (List (List F))) (mask : ℕ → ℕ → Bool)
      → length (attend q k v mask) ≡ length q)
    (m : Llama F Matrix) (ops : Tensors T (List (List F))) (row : T → ℕ → List (List F))
    (bm : BlockManager) (laws : Laws ops row bm.num_blocks bm.block_size) (all : List ℕ)
    (pos : 0 < bm.block_size)
    (attn_fn : List (List (List F))
      → T
      → T
      → List (List ℕ)
      → List ℕ
      → List ℕ
      → ℕ
      → F
      → Result (List (List (List F))))
    (paged : IsPagedAttention o attend keeps m ops bm.block_size attn_fn) where
  -- The rows of the model's output for a sequence alone.
  abbrev pub dense_out : Session F → List (List F)
  dense_out s =
      map (rms_norm o m.eps m.norm)
        (dense o attend keeps m ops row bm laws all pos attn_fn paged m.layers 0 s).x

  -- The model has run.
  abbrev pub Forwarded : List (Session F) → List ℕ → Result (List (List F) × KvCache T) → Type 0
  Forwarded ss logits_indices r =
      (c' : KvCache T) × (r
        ≡ ok (
          map (λ i. map o.to_float (o.linear m.lm_head (row_or (concat_map dense_out ss) i)))
              logits_indices,
          c',
        ))
      × ((j : ℕ)
          → j < length m.layers
          → HoldsAt o attend keeps m ops row bm laws all pos attn_fn paged c' j
              (grown o attend keeps m ops row bm laws all pos attn_fn paged)
              (dense o attend keeps m ops row bm laws all pos attn_fn paged m.layers 0) ss)

  -- The model over the paged cache computes what it computes for each sequence alone with a
  -- contiguous one, for tensors that keep the laws and a backend of attention that keeps its
  -- promise. Let the metadata be that of a batch of sequences, each of which covers its tokens with
  -- blocks of the pool and shares none from that of its first new token on with any other
  -- reference; let the tokens be in the vocabulary, the positions in the tables of the rotary
  -- embedding, and the indices of the logits below the number of tokens; and let the cache hold in
  -- each layer the keys and values of each sequence up to its first new token. Then `forward` does
  -- not raise, its logits are those of the rows that the layers compute for each sequence for
  -- itself, the sequences one behind the other, and afterwards the cache holds in each layer the
  -- keys and values of each sequence, those of its new tokens included.
  pub forward-Forwarded :
      (ss : List (Session F)) (input_ids : List ℕ) (c : KvCache T) (meta : AttentionMetadata)
      (logits_indices : List ℕ)
      → Describes o attend keeps m ops row bm laws all pos attn_fn paged meta (map part_of ss)
      → AllBelow (length m.embed_tokens) input_ids
      → all_x ss ≡ map (row_or m.embed_tokens) input_ids
      → InTables o attend keeps m ops row bm laws all pos attn_fn paged ss
      → Filled ss
      → AllBelow (length (concat_map dense_out ss)) logits_indices
      → ((j : ℕ)
          → j < length m.layers
          → HoldsAt o attend keeps m ops row bm laws all pos attn_fn paged c j
              (known o attend keeps m ops row bm laws all pos attn_fn paged)
              (λ s. s)
              ss)
      → Forwarded ss logits_indices
          (forward o ops attn_fn m input_ids (all_positions ss) c meta logits_indices)
  unfolding forward model_forward
  forward-Forwarded ss input_ids c meta logits_indices d vocab embedded tables filled picked holds =
      let (c', eq, held, _) =
        layers_forward_lem o attend keeps m ops row bm laws all pos attn_fn paged m.layers 0 meta ss
          c d tables filled (λ j le lt. holds j (omega (arith, lt))) in
      let normed : map (rms_norm o m.eps m.norm) (
            concat_map
              (λ s. (dense o attend keeps m ops row bm laws all pos attn_fn paged m.layers 0 s).x)
              ss)
          ≡ concat_map dense_out ss =
        map-concat_map (rms_norm o m.eps m.norm)
          (λ s. (dense o attend keeps m ops row bm laws all pos attn_fn paged m.layers 0 s).x) ss in
      (
        c',
        rw
            (
              select_rows_lem m.embed_tokens input_ids vocab,
              ← embedded,
              eq,
              normed,
              select_rows_lem (concat_map dense_out ss) logits_indices picked,
            )
            (ap (λ r. ok (r, c'))
              (map-map (λ t. map o.to_float (o.linear m.lm_head t))
                (row_or (concat_map dense_out ss)) logits_indices)),
        λ j lt. held j (omega arith) (omega (arith, lt)),
      )
