-- ===== src/Llama/Layer.antt =====
-- pagedllm/model/llama.py: a layer, run for a batch over the paged cache, computes for each sequence what
-- it computes for the sequence alone.
use paged_llm.Base.{
  ℕ, ◌+◌, ◌≡◌, sym, ap, ◌∙◌, List, map, concat_map, All, All-mono, length, Bool, arith,
}
use paged_llm.BlockManager.Sequences.{length-range_from}
use paged_llm.KvCache.Parts.{Part}
use paged_llm.Attention.Segments.{Segment}
use paged_llm.Runner.{pad}
use paged_llm.Runner.Shapes.{length-map}
use paged_llm.Llama.{
  Floats, DecoderLayer, Llama, zip_with, rms_norm, rope, mlp, project, residual, join_heads,
}
use paged_llm.Llama.Rows.{
  row_or, map-concat_map, length-zip_with, zip_with-concat_map, length-rope, rope-concat_map,
}
use paged_llm.Llama.Dense.{
  Session, positions_of, rotated, normed, attended, after_attention, hidden,
}

abbrev pub part_of : {F : Type 0} → Session F → Part
part_of s = s.part

abbrev pub segment : Part → Segment
segment g = record { num_q = g.num; len = g.start + g.num; table = g.seq.block_table }

-- The same with the row of the matrix of block tables: the table and zeros behind it.
abbrev pub padded : ℕ → Part → Segment
padded width g = record {
  num_q = g.num;
  len = g.start + g.num;
  table = pad width g.seq.block_table;
}

-- A hidden state for each new token.
abbrev pub Filled : {F : Type 0} → List (Session F) → Type 0
Filled = All (λ s. length s.x ≡ s.part.num)

-- The tokens of all sequences, one sequence behind the other.
abbrev pub all_x : {F : Type 0} → List (Session F) → List (List F)
all_x = concat_map (λ s. s.x)

abbrev pub all_positions : {F : Type 0} → List (Session F) → List ℕ
all_positions = concat_map (λ s. positions_of s.part)

module _ {F Matrix : Type 0} (o : Floats F Matrix)
    (attend : List (List (List F))
      → List (List (List F))
      → List (List (List F))
      → (ℕ → ℕ → Bool)
      → List (List (List F)))
    (keeps : (q k v : List (List (List F))) (mask : ℕ → ℕ → Bool)
      → length (attend q k v mask) ≡ length q)
    (m : Llama F Matrix) (w : DecoderLayer F Matrix) (i : ℕ) where
  length-rows :
      (rows : List (List F)) (g : Part) → length (map (row_or rows) (positions_of g)) ≡ g.num
  length-rows rows g = length-map (row_or rows) (positions_of g) ∙ length-range_from g.start g.num

  pub length-projected :
      (n : ℕ) (matrix : DecoderLayer F Matrix → Matrix) (s : Session F)
      → length (project o n m.head_dim (matrix w) (normed o attend m w s)) ≡ length s.x
  length-projected n matrix s =
      length-map _ (normed o attend m w s) ∙ length-map (rms_norm o m.eps w.input_layernorm) s.x

  pub length-rotated :
      (n : ℕ) (matrix : DecoderLayer F Matrix → Matrix) (s : Session F)
      → length s.x ≡ s.part.num
      → length (rotated o attend m n (normed o attend m w s) matrix w s) ≡ s.part.num
  length-rotated n matrix s size =
      let same = length-projected n matrix s in
      length-rope o (map (row_or m.cos) (positions_of s.part))
        (map (row_or m.sin) (positions_of s.part)) _
        (omega (arith, length-rows m.cos s.part, same, size))
        (omega (arith, length-rows m.sin s.part, same, size))
      ∙ same
      ∙ size

  pub all_rows :
      (rows : List (List F)) (ss : List (Session F))
      → map (row_or rows) (all_positions ss)
        ≡ concat_map (λ s. map (row_or rows) (positions_of s.part)) ss
  all_rows rows ss = map-concat_map (row_or rows) (λ s. positions_of s.part) ss

  pub all_projected :
      (n : ℕ) (matrix : DecoderLayer F Matrix → Matrix) (ss : List (Session F))
      → project o n m.head_dim (matrix w) (map (rms_norm o m.eps w.input_layernorm) (all_x ss))
        ≡ concat_map (λ s. project o n m.head_dim (matrix w) (normed o attend m w s)) ss
  all_projected n matrix ss =
      ap (project o n m.head_dim (matrix w))
        (map-concat_map (rms_norm o m.eps w.input_layernorm) (λ (s : Session F). s.x) ss)
      ∙ map-concat_map _ (normed o attend m w) ss

  pub all_rotated :
      (n : ℕ) (matrix : DecoderLayer F Matrix → Matrix) (ss : List (Session F))
      → Filled ss
      → rope o
          (map (row_or m.cos) (all_positions ss))
          (map (row_or m.sin) (all_positions ss))
          (project o n m.head_dim (matrix w) (map (rms_norm o m.eps w.input_layernorm) (all_x ss)))
        ≡ concat_map (λ s. rotated o attend m n (normed o attend m w s) matrix w s) ss
  all_rotated n matrix ss filled =
      rw (all_rows m.cos ss, all_rows m.sin ss, all_projected n matrix ss)
        (rope-concat_map o (λ s. map (row_or m.cos) (positions_of s.part))
          (λ s. map (row_or m.sin) (positions_of s.part))
          (λ s. project o n m.head_dim (matrix w) (normed o attend m w s)) ss
          (All-mono ss
            (λ s size.
              let same = length-projected n matrix s in
              (
                omega (arith, length-rows m.cos s.part, same, size),
                omega (arith, length-rows m.sin s.part, same, size),
              ))
            filled))

  length-attended :
      (s : Session F) → length s.x ≡ s.part.num → length (attended o attend m w i s) ≡ s.part.num
  length-attended s size = keeps _ _ _ _ ∙ length-rotated m.num_heads (λ l. l.q_proj) s size

  length-after :
      (s : Session F)
      → length s.x ≡ s.part.num
      → length (after_attention o attend m w i s) ≡ s.part.num
  length-after s size =
      let same = length-attended s size in
      let out = map (λ t. o.linear w.o_proj (join_heads t)) (attended o attend m w i s) in
      let size_out : length out ≡ s.part.num = length-map _ (attended o attend m w i s) ∙ same in
      length-zip_with (zip_with o.add) s.x out (size ∙ sym size_out) ∙ size_out

  pub length-hidden :
      (s : Session F) → length s.x ≡ s.part.num → length (hidden o attend m w i s) ≡ s.part.num
  length-hidden s size =
      let x1 = after_attention o attend m w i s in
      let same = length-map (λ t. mlp o w (rms_norm o m.eps w.post_attention_layernorm t)) x1 in
      length-zip_with (zip_with o.add) x1 _ (sym same) ∙ same ∙ length-after s size

  -- What the layer does with the outputs of the attention.
  pub finish_all :
      (ss : List (Session F))
      → Filled ss
      → (let x1 = residual o (all_x ss) (
            map
              (λ t. o.linear w.o_proj (join_heads t))
              (concat_map (attended o attend m w i) ss)) in
          residual o x1 (map (λ t. mlp o w (rms_norm o m.eps w.post_attention_layernorm t)) x1))
        ≡ concat_map (hidden o attend m w i) ss
  finish_all ss filled =
      let project_out : List (List (List F)) → List (List F) =
        map (λ t. o.linear w.o_proj (join_heads t)) in
      let feed : List (List F) → List (List F) =
        map (λ t. mlp o w (rms_norm o m.eps w.post_attention_layernorm t)) in
      let first : residual o (all_x ss) (project_out (concat_map (attended o attend m w i) ss))
          ≡ concat_map (after_attention o attend m w i) ss =
        ap (residual o (all_x ss)) (map-concat_map _ (attended o attend m w i) ss)
        ∙ zip_with-concat_map (zip_with o.add) (λ (s : Session F). s.x)
            (λ s. project_out (attended o attend m w i s)) ss
            (All-mono ss
              (λ s size.
                size ∙ sym (length-map _ (attended o attend m w i s) ∙ length-attended s size))
              filled) in
      rw first (
        ap (residual o (concat_map (after_attention o attend m w i) ss))
          (map-concat_map _ (after_attention o attend m w i) ss)
        ∙ zip_with-concat_map (zip_with o.add) (after_attention o attend m w i)
            (λ s. feed (after_attention o attend m w i s)) ss
            (All-mono ss (λ s size. sym (length-map _ (after_attention o attend m w i s))) filled))
