-- ===== src/Llama/Dense.antt =====
-- pagedllm/model/llama.py: what the model computes for one sequence alone, with all keys and values of
-- the sequence in a list for each layer, and no cache, table or batch.
use paged_llm.Base.{ℕ, ◌+◌, List, [], ◌∷◌, ◌++◌, map, Bool, if◌then◌else◌, ◌==◌}
use paged_llm.BlockManager.{range_from}
use paged_llm.KvCache.Parts.{Part}
use paged_llm.Attention.Reference.{masked}
use paged_llm.Llama.{
  Floats, DecoderLayer, Llama, rms_norm, rope, mlp, project, residual, join_heads,
}
use paged_llm.Llama.Rows.{row_or}

-- A sequence in a forward pass: its part of the batch, the hidden states of its new tokens, and the
-- keys and values of each layer.
pub record Session (F : Type 0) : Type 0 where
  pub part : Part
  pub x : List (List F)
  pub keys : ℕ → List (List (List F))
  pub values : ℕ → List (List (List F))

abbrev pub positions_of : Part → List ℕ
positions_of g = range_from g.start g.num

module _ {F Matrix : Type 0} (o : Floats F Matrix)
    (attend : List (List (List F))
      → List (List (List F))
      → List (List (List F))
      → (ℕ → ℕ → Bool)
      → List (List (List F)))
    (m : Llama F Matrix) where
  abbrev pub rotated :
      ℕ
      → List (List F)
      → (DecoderLayer F Matrix → Matrix)
      → DecoderLayer F Matrix
      → Session F
      → List (List (List F))
  rotated n x matrix w s =
      rope o (map (row_or m.cos) (positions_of s.part)) (map (row_or m.sin) (positions_of s.part))
        (project o n m.head_dim (matrix w) x)

  abbrev pub normed : DecoderLayer F Matrix → Session F → List (List F)
  normed w s = map (rms_norm o m.eps w.input_layernorm) s.x

  -- The queries, and the keys and values of the new tokens.
  abbrev pub new_q : DecoderLayer F Matrix → Session F → List (List (List F))
  new_q w s = rotated m.num_heads (normed w s) (λ l. l.q_proj) w s

  abbrev pub new_k : DecoderLayer F Matrix → Session F → List (List (List F))
  new_k w s = rotated m.num_kv_heads (normed w s) (λ l. l.k_proj) w s

  abbrev pub new_v : DecoderLayer F Matrix → Session F → List (List (List F))
  new_v w s = project o m.num_kv_heads m.head_dim w.v_proj (normed w s)

  abbrev pub attended : DecoderLayer F Matrix → ℕ → Session F → List (List (List F))
  attended w i s =
      attend (new_q w s) (s.keys i ++ new_k w s) (s.values i ++ new_v w s)
        (masked (s.part.start + s.part.num) s.part.num)

  abbrev pub after_attention : DecoderLayer F Matrix → ℕ → Session F → List (List F)
  after_attention w i s =
      residual o s.x (map (λ t. o.linear w.o_proj (join_heads t)) (attended w i s))

  abbrev pub hidden : DecoderLayer F Matrix → ℕ → Session F → List (List F)
  hidden w i s =
      let x1 = after_attention w i s in
      residual o x1 (map (λ t. mlp o w (rms_norm o m.eps w.post_attention_layernorm t)) x1)

  -- The layer of an index.
  unfoldable pub dense_layer : DecoderLayer F Matrix → ℕ → Session F → Session F
  dense_layer w i s = record s {
    x = hidden w i s;
    keys = λ j. if i == j then s.keys j ++ new_k w s else s.keys j;
    values = λ j. if i == j then s.values j ++ new_v w s else s.values j;
  }

  -- The layers from an index on.
  unfoldable pub dense_layers : List (DecoderLayer F Matrix) → ℕ → Session F → Session F
  unfolding dense_layer
  dense_layers [] i s = s
  dense_layers (w ∷ ws) i s = dense_layers ws (i + 1) (dense_layer w i s)
