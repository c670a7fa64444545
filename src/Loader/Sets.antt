-- ===== src/Loader/Sets.antt =====
-- pagedllm/model/loader.py: the set of the loaded names, and what is missing from it.
use paged_llm.Base.{
  ℕ, count-append, ◌<◌, ◌≡◌, ◌⊎◌, inl, inr, refl, List, [], ◌∷◌, Bool, true, false, ◌&&◌, ◌||◌,
  ◌==◌, contains, count, put_key, mem_of_contains, absent_of_contains, eq→==, arith, Bool-cases,
}
use paged_llm.Loader.{missing, nothing_missing}

pub nothing_missing_lem :
    (tied : Bool) (lm_head : ℕ) (loaded ps : List ℕ)
    → nothing_missing (missing tied lm_head loaded ps) ≡ true
    → (p : ℕ) → 0 < count p ps
    → (0 < count p loaded) ⊎ ((tied ≡ true) × (p ≡ lm_head))
nothing_missing_lem tied lm_head loaded [] e p h = absurd (omega arith)
nothing_missing_lem tied lm_head loaded (q ∷ ps) e p h = elim (Bool-cases (contains q loaded)) [
  | inl here ↦ elim (Bool-cases (q == p)) [
    | inl same ↦ inl (mem_of_contains p loaded (ground (arith, here, same)))
    | inr differ ↦ nothing_missing_lem tied lm_head loaded ps (rw here at e) p (ground arith)
  ]
  | inr there ↦ elim (Bool-cases tied) [
    | inr untied ↦ absurd (ground (arith, there, untied))
    | inl is_tied ↦ elim (Bool-cases (q == lm_head)) [
      | inr other ↦ absurd (ground (arith, there, other))
      | inl head ↦ elim (Bool-cases (q == p)) [
        | inl same ↦ inr (is_tied, ground (arith, head, same))
        | inr differ ↦
            nothing_missing_lem tied lm_head loaded ps (rw (there, is_tied, head) at e) p
              (ground arith)
      ]
    ]
  ]
]

pub put_key-keeps : (k : ℕ) (xs : List ℕ) (p : ℕ) → 0 < count p xs → 0 < count p (put_key k xs)
unfolding put_key
put_key-keeps k xs p h = ground (arith, count-append p xs (k ∷ []))

pub put_key-has : (k : ℕ) (xs : List ℕ) → 0 < count k (put_key k xs)
unfolding put_key
put_key-has k xs = elim (Bool-cases (contains k xs)) [
  | inl old ↦ rw old (mem_of_contains k xs old)
  | inr new ↦ ground (arith, new, count-append k xs (k ∷ []), eq→== k k refl)
]

-- A parameter that is missing is not in the set, and is not the tied output layer.
pub some_missing_lem :
    (tied : Bool) (lm_head : ℕ) (loaded ps : List ℕ)
    → nothing_missing (missing tied lm_head loaded ps) ≡ false
    → (p : ℕ) × (0 < count p ps) × (count p loaded ≡ 0) × ((tied && p == lm_head) ≡ false)
some_missing_lem tied lm_head loaded [] e = absurd (cc)
some_missing_lem tied lm_head loaded (q ∷ ps) e =
    elim (Bool-cases (contains q loaded || (tied && q == lm_head))) [
      | inl there ↦
          let (p, here, absent, plain) = some_missing_lem tied lm_head loaded ps (rw there at e) in
          (p, ground arith, absent, plain)
      | inr gone ↦ (
        q,
        ground (arith, eq→== q q refl),
        absent_of_contains q loaded (ground (arith, gone)),
        ground (arith, gone),
      )
    ]
