-- ===== src/Attention/Segments.antt =====
-- pagedllm/attention/reference.py: the sequences of a batch do not see each other.
use paged_llm.Base.{
  ℕ, zero, suc, ◌+◌, ◌-◌, ◌≤◌, ◌≡◌, refl, sym, ap, ◌∙◌, List, [], ◌∷◌, ◌++◌, append_assoc, Bool,
  length, length-append, length-take, drop, take_append, get_elem?, some, ok, arith,
}
use paged_llm.BlockManager.PrefixCache.{slice}
use paged_llm.KvCache.{Tensors}
use paged_llm.Attention.Reference.{attend_one, attend_from, splice, paged_attention_reference}

-- A sequence of the batch: its new tokens, its length and its table.
pub record Segment : Type 0 where
  pub num_q : ℕ
  pub len : ℕ
  pub table : List ℕ

-- The lists of a batch, from the `s`-th sequence and query `start` on.
abbrev pub IsBatch : List ℕ → List ℕ → List (List ℕ) → ℕ → ℕ → List Segment → Type 0
IsBatch cu lens tables s start [] = Unit {0}
IsBatch cu lens tables s start (g ∷ gs) =
    (get_elem? cu s ≡ some start)
    × (get_elem? cu (s + 1) ≡ some (start + g.num_q))
    × (get_elem? lens s ≡ some g.len)
    × (get_elem? tables s ≡ some g.table)
    × IsBatch cu lens tables (s + 1) (start + g.num_q) gs

abbrev pub total_q : List Segment → ℕ
total_q [] = 0
total_q (g ∷ gs) = g.num_q + total_q gs

drop_append :
    {A : Type 0} (n : ℕ) (xs ys : List A)
    → n ≤ length ys
    → drop (length xs + n) (xs ++ ys) ≡ drop n ys
drop_append n [] ys h = let e : 0 + n ≡ n = omega arith in rw e refl
drop_append n (x ∷ xs) ys h =
    let e : suc (length xs) + n ≡ suc (length xs + n) = omega arith in rw e (drop_append n xs ys h)

length-drop :
    {A : Type 0} (n : ℕ) (xs : List A) → n ≤ length xs → length (drop n xs) + n ≡ length xs
length-drop zero xs h = omega arith
length-drop (suc n) [] h = absurd (omega arith)
length-drop (suc n) (x ∷ xs) h = omega (arith, length-drop n xs (omega arith))

module _ {T Row Query : Type 0} (ops : Tensors T Row)
    (attend : List Query → List Row → List Row → (ℕ → ℕ → Bool) → List Query) (bs : ℕ)
    (k_cache v_cache : T) (q : List Query) where
  -- The outputs of the sequences, each computed for itself, one behind the other.
  abbrev pub each_alone : ℕ → List Segment → List Query
  each_alone start [] = []
  each_alone start (g ∷ gs) =
      attend_one ops attend bs k_cache v_cache (slice start (start + g.num_q) q) g.num_q g.len
        g.table
      ++ each_alone (start + g.num_q) gs

  module _
      (keeps : (qs : List Query) (k v : List Row) (mask : ℕ → ℕ → Bool)
        → length (attend qs k v mask) ≡ length qs) where
    splice_done :
        (done rest o : List Query) (n : ℕ)
        → n ≤ length rest
        → splice (length done) (length done + n) o (done ++ rest) ≡ (done ++ o) ++ drop n rest
    splice_done done rest o n h =
        rw (take_append done rest, drop_append n done rest h)
          (sym (append_assoc done o (drop n rest)))

    slice_size : (start n : ℕ) → start + n ≤ length q → length (slice start (start + n) q) ≡ n
    slice_size start n h =
        let width : start + n - start ≡ n = omega arith in
        rw width (length-take n (drop start q) (omega (arith, length-drop start q (omega arith))))

    attend_from_lem :
        (cu lens : List ℕ) (tables : List (List ℕ)) (gs : List Segment) (s start : ℕ)
        (done rest : List Query)
        → IsBatch cu lens tables s start gs
        → length done ≡ start
        → length rest ≡ total_q gs
        → start + total_q gs ≡ length q
        → attend_from ops attend bs k_cache v_cache q tables cu lens (length gs) s (done ++ rest)
          ≡ ok (done ++ each_alone start gs)
    unfolding attend_from
    attend_from_lem cu lens tables [] s start done [] batch front back all = refl
    attend_from_lem cu lens tables [] s start done (x ∷ rest) batch front back all =
        absurd (omega (arith, back))
    attend_from_lem cu lens tables (g ∷ gs) s start done rest batch front back all =
        let (at_start, at_end, at_len, at_table, others) = batch in
        let o =
          attend_one ops attend bs k_cache v_cache (slice start (start + g.num_q) q) g.num_q g.len
            g.table in
        let size : length o ≡ g.num_q =
          keeps _ _ _ _ ∙ slice_size start g.num_q (omega (arith, all)) in
        let spliced : splice start (start + g.num_q) o (done ++ rest)
            ≡ (done ++ o) ++ drop g.num_q rest =
          ap (λ a. splice a (a + g.num_q) o (done ++ rest)) (sym front)
          ∙ splice_done done rest o g.num_q (omega (arith, back)) in
        let ih =
          attend_from_lem cu lens tables gs (s + 1) (start + g.num_q) (done ++ o)
            (drop g.num_q rest) others (omega (arith, length-append done o, size, front))
            (omega (arith, length-drop g.num_q rest (omega (arith, back)), back))
            (omega (arith, all)) in
        let width : start + g.num_q - start ≡ g.num_q = omega arith in
        rw (at_start, at_end, at_len, at_table)
          (ap
              (λ m. attend_from ops attend bs k_cache v_cache q tables cu lens (length gs) (s + 1) (
                splice start (start + g.num_q)
                  (attend_one ops attend bs k_cache v_cache (slice start (start + g.num_q) q) m
                    g.len g.table)
                  (done ++ rest)))
              width
            ∙ ap (attend_from ops attend bs k_cache v_cache q tables cu lens (length gs) (s + 1))
                spliced
            ∙ ih
            ∙ ap ok (append_assoc done o (each_alone (start + g.num_q) gs)))

    -- In the reference kernel no sequence of a batch sees another: if the lists give each sequence
    -- its queries, its length and its table, one behind the other and all queries in all, and the
    -- attention of one sequence has an output for each query, then `paged_attention_reference` does
    -- not raise, and its result is the outputs of the sequences, each computed from its own queries
    -- and the rows of its own table, in their order; nothing of the new tensor is left in it.
    pub paged_attention_reference_lem :
        (cu lens : List ℕ) (tables : List (List ℕ)) (gs : List Segment) (empty : List Query)
        → IsBatch cu lens tables 0 0 gs
        → length lens ≡ length gs
        → total_q gs ≡ length q
        → length empty ≡ length q
        → paged_attention_reference ops attend bs k_cache v_cache q tables cu lens empty
          ≡ ok (each_alone 0 gs)
    unfolding paged_attention_reference
    paged_attention_reference_lem cu lens tables gs empty batch some_lens all size = rw some_lens (
        attend_from_lem cu lens tables gs 0 0 [] empty batch refl (omega (arith, size, all))
          (omega (arith, all)))
