-- ===== src/Llama/Cached.antt =====
-- pagedllm/model/llama.py: a layer over the paged cache.
use paged_llm.Base.{
  ℕ, ◌+◌, ◌≡◌, refl, sym, ap, ◌∙◌, List, [], ◌∷◌, ◌++◌, append_assoc, map, concat_map, All, length,
  length-append, Bool, Result, ok, arith,
}
use paged_llm.KvCache.{Tensors, gather}
use paged_llm.Attention.Reference.{masked}
use paged_llm.BlockManager.PrefixCache.{slice}
use paged_llm.Attention.Segments.{Segment, IsBatch, total_q, each_alone}
use paged_llm.Llama.{Floats, DecoderLayer, Llama}
use paged_llm.Llama.Rows.{slice_middle}
use paged_llm.Llama.Dense.{Session, new_q, new_k, new_v, attended}
use paged_llm.Llama.Layer.{part_of, segment, Filled, length-rotated}

module _ {F Matrix T : Type 0} (o : Floats F Matrix)
    (attend : List (List (List F))
      → List (List (List F))
      → List (List (List F))
      → (ℕ → ℕ → Bool)
      → List (List (List F)))
    (keeps : (q k v : List (List (List F))) (mask : ℕ → ℕ → Bool)
      → length (attend q k v mask) ≡ length q)
    (m : Llama F Matrix) (ops : Tensors T (List (List F))) (bs : ℕ) where
  -- What the backends promise: the outputs of the sequences, each computed for itself.
  abbrev pub IsPagedAttention :
      (List (List (List F))
        → T
        → T
        → List (List ℕ)
        → List ℕ
        → List ℕ
        → ℕ
        → F
        → Result (List (List (List F))))
      → Type 0
  IsPagedAttention attn_fn =
      (q : List (List (List F))) (kc vc : T) (tables : List (List ℕ)) (cu lens : List ℕ) (max_q : ℕ)
      (gs : List Segment)
      → IsBatch cu lens tables 0 0 gs
      → length lens ≡ length gs
      → total_q gs ≡ length q
      → attn_fn q kc vc tables cu lens max_q m.scale ≡ ok (each_alone ops attend bs kc vc q 0 gs)

  module _ (w : DecoderLayer F Matrix) (i : ℕ) where
    -- The tensors of the layer hold the keys and values of each sequence, and then those of the new
    -- tokens too.
    abbrev pub Before : T → T → List (Session F) → Type 0
    Before kc vc = All (λ s.
        (gather ops bs kc s.part.seq.block_table s.part.start ≡ s.keys i)
        × (gather ops bs vc s.part.seq.block_table s.part.start ≡ s.values i))

    abbrev pub After : T → T → List (Session F) → Type 0
    After kc vc = All (λ s.
        (gather ops bs kc s.part.seq.block_table (s.part.start + s.part.num)
          ≡ s.keys i ++ new_k o attend m w s)
        × (gather ops bs vc s.part.seq.block_table (s.part.start + s.part.num)
            ≡ s.values i ++ new_v o attend m w s))

    pub all_attended :
        (ss : List (Session F)) (kc vc : T) (q0 q : List (List (List F))) (off : ℕ)
        → q ≡ q0 ++ concat_map (new_q o attend m w) ss
        → length q0 ≡ off
        → Filled ss
        → After kc vc ss
        → each_alone ops attend bs kc vc q off (map segment (map part_of ss))
          ≡ concat_map (attended o attend m w i) ss
    all_attended [] kc vc q0 q off split front filled after = refl
    all_attended (s ∷ ss) kc vc q0 q off split front (size, filled) ((gk, gv), after) =
        let mine = new_q o attend m w s in
        let behind = concat_map (new_q o attend m w) ss in
        let mine_size : length mine ≡ s.part.num =
          length-rotated o attend keeps m w i m.num_heads (λ l. l.q_proj) s size in
        let sliced : slice off (off + s.part.num) q ≡ mine =
          ap (λ r. slice off (off + s.part.num) r) split
          ∙ ap (λ a. slice a (a + s.part.num) (q0 ++ (mine ++ behind))) (sym front)
          ∙ slice_middle q0 mine behind s.part.num mine_size in
        let mask = masked (s.part.start + s.part.num) s.part.num in
        let table = s.part.seq.block_table in
        let len = s.part.start + s.part.num in
        let here : attend (slice off (off + s.part.num) q) (gather ops bs kc table len)
              (gather ops bs vc table len) mask
            ≡ attended o attend m w i s =
          ap (λ a. attend a (gather ops bs kc table len) (gather ops bs vc table len) mask) sliced
          ∙ ap (λ a. attend mine a (gather ops bs vc table len) mask) gk
          ∙ ap (λ a. attend mine (s.keys i ++ new_k o attend m w s) a mask) gv in
        ap
          (λ a.
            a ++ each_alone ops attend bs kc vc q (off + s.part.num) (map segment (map part_of ss)))
          here
        ∙ ap (λ r. attended o attend m w i s ++ r)
            (all_attended ss kc vc (q0 ++ mine) q (off + s.part.num)
              (split ∙ sym (append_assoc q0 mine behind))
              (omega (arith, length-append q0 mine, front, mine_size)) filled after)

    pub total_queries :
        (ss : List (Session F))
        → Filled ss
        → total_q (map segment (map part_of ss)) ≡ length (concat_map (new_q o attend m w) ss)
    total_queries [] filled = refl
    total_queries (s ∷ ss) (size, filled) =
        let mine = new_q o attend m w s in
        omega (
          arith,
          length-append mine (concat_map (new_q o attend m w) ss),
          length-rotated o attend keeps m w i m.num_heads (λ l. l.q_proj) s size,
          total_queries ss filled,
        )
