-- ===== src/Llama.antt =====
-- pagedllm/model/llama.py: the forward pass.
-- A batch is token-major, so a tensor of hidden states is a list of one row for each token, and what
-- torch does along the last dimension is done to each row. The operations of torch on elements, the
-- mean and the linear map are parameters.
pub mod Dense
pub mod Rows
pub mod Layer
pub mod Padding
pub mod Cached
pub mod Layers
pub mod Stack
pub mod Forward
pub mod Backend
pub mod Lasts
pub mod Step
use paged_llm.Base.{
  ℕ, zero, suc, ◌+◌, ◌-◌, ◌/◌, List, [], ◌∷◌, ◌++◌, map, length, take, drop, get_elem?, Result, ok,
  index_error, or_raise, ◌>>=◌,
}
use paged_llm.KvCache.{Tensors, KvCache, write_cache}

-- Operations on the elements `F` of tensors; `to_dtype` is the conversion back from float32. A linear
-- layer without bias is its matrix.
pub record Floats (F Matrix : Type 0) : Type 0 where
  pub add : F → F → F
  pub mul : F → F → F
  pub neg : F → F
  pub square : F → F
  pub rsqrt : F → F
  pub silu : F → F
  pub to_float : F → F
  pub to_dtype : F → F
  pub mean : List F → F
  pub linear : Matrix → List F → List F

-- The parameters of a DecoderLayer, its attention and its MLP.
pub record DecoderLayer (F Matrix : Type 0) : Type 0 where
  pub q_proj : Matrix
  pub k_proj : Matrix
  pub v_proj : Matrix
  pub o_proj : Matrix
  pub gate_proj : Matrix
  pub up_proj : Matrix
  pub down_proj : Matrix
  pub input_layernorm : List F
  pub post_attention_layernorm : List F

-- LlamaForCausalLM, with its LlamaModel and the buffers of its RotaryEmbedding.
pub record Llama (F Matrix : Type 0) : Type 0 where
  pub num_heads : ℕ
  pub num_kv_heads : ℕ
  pub head_dim : ℕ
  pub scale : F
  pub eps : F
  pub embed_tokens : List (List F)
  pub layers : List (DecoderLayer F Matrix)
  pub norm : List F
  pub cos : List (List F)
  pub sin : List (List F)
  pub lm_head : Matrix

pub record AttentionMetadata : Type 0 where
  pub slot_mapping : List ℕ
  pub block_tables : List (List ℕ)
  pub cu_seqlens_q : List ℕ
  pub seq_lens_k : List ℕ
  pub max_q_len : ℕ

-- An operation on two tensors of one shape.
abbrev pub zip_with {ℓ} : {A B C : Type ℓ} → (A → B → C) → List A → List B → List C
zip_with f [] ys = []
zip_with f (x ∷ xs) [] = []
zip_with f (x ∷ xs) (y ∷ ys) = f x y ∷ zip_with f xs ys

-- `t[indices]`
abbrev pub select_rows {ℓ} : {A : Type ℓ} → List A → List ℕ → Result (List A)
select_rows rows [] = ok []
select_rows rows (i ∷ is) = do
  r ← or_raise (get_elem? rows i) index_error
  rest ← select_rows rows is
  ok (r ∷ rest)

-- `x.view(n, d)` of one token, and `x.reshape(-1)` back.
abbrev pub split_heads {ℓ} : {A : Type ℓ} → ℕ → ℕ → List A → List (List A)
split_heads zero d x = []
split_heads (suc n) d x = take d x ∷ split_heads n d (drop d x)

abbrev pub join_heads {ℓ} : {A : Type ℓ} → List (List A) → List A
join_heads [] = []
join_heads (h ∷ hs) = h ++ join_heads hs

module _ {F Matrix : Type 0} (o : Floats F Matrix) where
  -- `RMSNorm.forward` of one row.
  abbrev pub rms_norm : F → List F → List F → List F
  rms_norm eps weight x =
      let xf = map o.to_float x in
      let factor = o.rsqrt (o.add (o.mean (map o.square xf)) eps) in
      zip_with (λ a w. o.to_dtype (o.mul a (o.to_float w))) (map (λ a. o.mul a factor) xf) weight

  abbrev pub rotate_half : List F → List F
  rotate_half x = let h = length x / 2 in map o.neg (drop h x) ++ take h x

  -- `RotaryEmbedding.forward` of one head, with the rows of its position.
  abbrev pub rotate : List F → List F → List F → List F
  rotate cos sin x =
      let xf = map o.to_float x in
      map o.to_dtype (zip_with o.add (zip_with o.mul xf cos) (zip_with o.mul (rotate_half xf) sin))

  -- The same of all heads of all tokens, with a row for each token.
  abbrev pub rope : List (List F) → List (List F) → List (List (List F)) → List (List (List F))
  rope cos sin [] = []
  rope [] sin (h ∷ hs) = []
  rope (c ∷ cos) [] (h ∷ hs) = []
  rope (c ∷ cos) (s ∷ sin) (h ∷ hs) = map (rotate c s) h ∷ rope cos sin hs

  -- `MLP.forward` of one row.
  abbrev pub mlp : DecoderLayer F Matrix → List F → List F
  mlp w x =
      o.linear w.down_proj
        (zip_with o.mul (map o.silu (o.linear w.gate_proj x)) (o.linear w.up_proj x))

  abbrev pub project : ℕ → ℕ → Matrix → List (List F) → List (List (List F))
  project n d matrix = map (λ x. split_heads n d (o.linear matrix x))

  -- The sum of hidden states and what a layer adds to them.
  abbrev pub residual : List (List F) → List (List F) → List (List F)
  residual = zip_with (zip_with o.add)

  module _ {T : Type 0} (ops : Tensors T (List (List F)))
      (attn_fn : List (List (List F))
        → T
        → T
        → List (List ℕ)
        → List ℕ
        → List ℕ
        → ℕ
        → F
        → Result (List (List (List F))))
      (m : Llama F Matrix) where
    -- `Attention.forward` of the layer of an index.
    unfoldable pub attention_forward :
        DecoderLayer F Matrix
        → ℕ
        → List (List F)
        → List ℕ
        → KvCache T
        → AttentionMetadata
        → Result (List (List F) × KvCache T)
    unfolding write_cache
    attention_forward w layer_idx x positions c meta = do
      let q = project m.num_heads m.head_dim w.q_proj x
      let k = project m.num_kv_heads m.head_dim w.k_proj x
      let v = project m.num_kv_heads m.head_dim w.v_proj x
      cos ← select_rows m.cos positions
      sin ← select_rows m.sin positions
      c' ← write_cache ops c layer_idx (rope cos sin k) v meta.slot_mapping
      kc ← or_raise (get_elem? c'.k_caches layer_idx) index_error
      vc ← or_raise (get_elem? c'.v_caches layer_idx) index_error
      out ←
          attn_fn (rope cos sin q) kc vc meta.block_tables meta.cu_seqlens_q meta.seq_lens_k
            meta.max_q_len m.scale
      ok (map (λ t. o.linear w.o_proj (join_heads t)) out, c')

    -- `DecoderLayer.forward`
    unfoldable pub layer_forward :
        DecoderLayer F Matrix
        → ℕ
        → List (List F)
        → List ℕ
        → KvCache T
        → AttentionMetadata
        → Result (List (List F) × KvCache T)
    unfolding attention_forward
    layer_forward w layer_idx x positions c meta = do
      (a, c') ←
          attention_forward w layer_idx (map (rms_norm m.eps w.input_layernorm) x) positions c meta
      let x1 = residual x a
      ok (residual x1 (map (λ t. mlp w (rms_norm m.eps w.post_attention_layernorm t)) x1), c')

    -- The loop of `LlamaModel.forward`, from the layer of an index on.
    unfoldable pub layers_forward :
        List (DecoderLayer F Matrix)
        → ℕ
        → List (List F)
        → List ℕ
        → KvCache T
        → AttentionMetadata
        → Result (List (List F) × KvCache T)
    unfolding layer_forward
    layers_forward [] i x positions c meta = ok (x, c)
    layers_forward (w ∷ ws) i x positions c meta = do
      (x', c') ← layer_forward w i x positions c meta
      layers_forward ws (i + 1) x' positions c' meta

    -- `LlamaModel.forward`
    unfoldable pub model_forward :
        List ℕ → List ℕ → KvCache T → AttentionMetadata → Result (List (List F) × KvCache T)
    unfolding layers_forward
    model_forward input_ids positions c meta = do
      x ← select_rows m.embed_tokens input_ids
      (x', c') ← layers_forward m.layers 0 x positions c meta
      ok (map (rms_norm m.eps m.norm) x', c')

    -- `LlamaForCausalLM.forward`
    unfoldable pub forward :
        List ℕ
        → List ℕ
        → KvCache T
        → AttentionMetadata
        → List ℕ
        → Result (List (List F) × KvCache T)
    unfolding model_forward
    forward input_ids positions c meta logits_indices = do
      (hidden, c') ← model_forward input_ids positions c meta
      rows ← select_rows hidden logits_indices
      ok (map (λ t. map o.to_float (o.linear m.lm_head t)) rows, c')
