-- ===== src/Llama/Lasts.antt =====
-- pagedllm/engine.py: the rows of the last tokens of the items that are sampled, among those of all
-- tokens.
use paged_llm.Base.{
  ℕ, ◌+◌, ◌-◌, ◌<◌, ◌≤◌, ◌≡◌, refl, ap, ◌∙◌, List, [], ◌∷◌, ◌++◌, append_assoc, map, concat_map,
  All, length, length-append, get_elem?, get_elem?-append_left, get_elem?-append_right, AllBelow,
  Bool, true, false, Bool-cases, inl, inr, if◌then◌else◌, arith,
}
use paged_llm.Scheduler.{ScheduledSequence}
use paged_llm.Runner.Layout.{lasts}
use paged_llm.Llama.Rows.{row_or}

abbrev pub sampled_items : List ScheduledSequence → List ScheduledSequence
sampled_items [] = []
sampled_items (i ∷ is) = if i.needs_sampling then i ∷ sampled_items is else sampled_items is

module _ {A : Type 0} (out : ScheduledSequence → List (List A)) where
  -- A row for each token of an item, and one at least.
  abbrev pub AllFull : List ScheduledSequence → Type 0
  AllFull = All (λ i. (length (out i) ≡ i.num_new_tokens) × (0 < i.num_new_tokens))

  abbrev pub last_row : ScheduledSequence → List A
  last_row i = row_or (out i) (i.num_new_tokens - 1)

  -- The row of the last token of an item, among the rows of all.
  last_row_among :
      (before behind : List (List A)) (i : ScheduledSequence) (off : ℕ)
      → length before ≡ off
      → length (out i) ≡ i.num_new_tokens
      → 0 < i.num_new_tokens
      → row_or (before ++ (out i ++ behind)) (off + i.num_new_tokens - 1) ≡ last_row i
  last_row_among before behind i off front size pos =
      let k = i.num_new_tokens - 1 in
      let here : off + i.num_new_tokens - 1 ≡ length before + k = omega (arith, front, pos) in
      let found : get_elem? (before ++ (out i ++ behind)) (off + i.num_new_tokens - 1)
          ≡ get_elem? (out i) k =
        ap (get_elem? (before ++ (out i ++ behind))) here
        ∙ get_elem?-append_right before (out i ++ behind) k
        ∙ get_elem?-append_left (out i) behind k (omega (arith, size, pos)) in
      rw (row_or, found) refl

  -- An item is among those that are sampled, and its row among the rows, if it asks for it.
  one_more :
      (asks : Bool) (f : ℕ → List A) (x : ℕ) (xs : List ℕ) (i : ScheduledSequence)
      (is : List ScheduledSequence)
      → f x ≡ last_row i
      → map f xs ≡ map last_row is
      → map f (if asks then x ∷ xs else xs) ≡ map last_row (if asks then i ∷ is else is)
  one_more true f x xs i is first rest =
      ap (λ r. r ∷ map f xs) first ∙ ap (λ rs. last_row i ∷ rs) rest
  one_more false f x xs i is first rest = rest

  -- The rows of the last tokens, among those of all tokens, with others in front.
  pub lasts_rows :
      (items : List ScheduledSequence) (before : List (List A)) (off : ℕ)
      → length before ≡ off
      → AllFull items
      → map (row_or (before ++ concat_map out items)) (lasts off items)
        ≡ map last_row (sampled_items items)
  lasts_rows [] before off front full = refl
  lasts_rows (i ∷ is) before off front ((size, pos), full) =
      let behind = concat_map out is in
      let rest : map (row_or ((before ++ out i) ++ behind)) (lasts (off + i.num_new_tokens) is)
          ≡ map last_row (sampled_items is) =
        lasts_rows is (before ++ out i) (off + i.num_new_tokens)
          (omega (arith, length-append before (out i), front, size)) full in
      one_more i.needs_sampling (row_or (before ++ (out i ++ behind))) (off + i.num_new_tokens - 1)
        (lasts (off + i.num_new_tokens) is) i (sampled_items is)
        (last_row_among before behind i off front size pos)
        (rw (append_assoc before (out i) behind) at rest)

  pub lasts_below :
      (items : List ScheduledSequence) (off n : ℕ)
      → AllFull items
      → off + length (concat_map out items) ≤ n
      → AllBelow n (lasts off items)
  lasts_below [] off n full le = tt
  lasts_below (i ∷ is) off n ((size, pos), full) le =
      let total = length-append (out i) (concat_map out is) in
      let rest = lasts_below is (off + i.num_new_tokens) n full (omega (arith, le, total, size)) in
      elim (Bool-cases i.needs_sampling) [
        | inl asks ↦ rw asks (omega (arith, le, total, size, pos), rest)
        | inr rests ↦ rw rests rest
      ]
