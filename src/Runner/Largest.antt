-- ===== src/Runner/Largest.antt =====
-- pagedllm/engine.py: `max` of a list, for the width of the block tables and `max_q_len`.
use paged_llm.Base.{
  ℕ, zero, suc, ◌<◌, ◌≤◌, ◌≡◌, ◌⊎◌, refl, sym, ap, ◌∙◌, List, [], ◌∷◌, some, ltb, Bool-cases, inl,
  inr, length, get_elem?, ok, arith,
}
use paged_llm.Runner.{larger, largest, largest_from}

-- The number stands in the list, and none there is larger.
pub record IsLargest (m : ℕ) (xs : List ℕ) : Type 0 where
  pub there : (i : ℕ) × (get_elem? xs i ≡ some m)
  pub bound : (i x : ℕ) → get_elem? xs i ≡ some x → x ≤ m

larger-cases : (a b : ℕ) → (larger a b ≡ a) ⊎ (larger a b ≡ b)
larger-cases a b = elim (Bool-cases (ltb a b)) [
  | inl less ↦ inr (rw less refl)
  | inr more ↦ inl (rw more refl)
]

larger-le : (a b : ℕ) → (a ≤ larger a b) × (b ≤ larger a b)
larger-le a b = ground arith

largest_from_lem : (m : ℕ) (xs : List ℕ) → IsLargest (largest_from m xs) (m ∷ xs)
largest_from_lem m [] = record { there = (0, refl); bound = only }
  where
    only : (i x : ℕ) → get_elem? (m ∷ []) i ≡ some x → x ≤ m
    only zero x e = ground (arith, e)
    only (suc i) x e = cc
largest_from_lem m (x ∷ xs) =
    let rest = largest_from_lem (larger m x) xs in
    record { there = place _ rest.there; bound = below _ rest.bound }
  where
    place :
        (top : ℕ)
        → (i : ℕ) × (get_elem? (larger m x ∷ xs) i ≡ some top)
        → (j : ℕ) × (get_elem? (m ∷ x ∷ xs) j ≡ some top)
    place top (zero, e) = elim (larger-cases m x) [
      | inl first ↦ (0, ap some (sym first) ∙ e)
      | inr second ↦ (1, ap some (sym second) ∙ e)
    ]
    place top (suc i, e) = (suc (suc i), e)

    below :
        (top : ℕ)
        → ((i y : ℕ) → get_elem? (larger m x ∷ xs) i ≡ some y → y ≤ top)
        → (i y : ℕ) → get_elem? (m ∷ x ∷ xs) i ≡ some y
        → y ≤ top
    below top h zero y e = ground (arith, h 0 (larger m x) refl, larger-le m x, e)
    below top h (suc zero) y e = ground (arith, h 0 (larger m x) refl, larger-le m x, e)
    below top h (suc (suc i)) y e = h (suc i) y e

pub largest_lem : (xs : List ℕ) → 0 < length xs → (m : ℕ) × (largest xs ≡ ok m) × IsLargest m xs
largest_lem [] h = absurd (omega arith)
largest_lem (x ∷ xs) h = (largest_from x xs, refl, largest_from_lem x xs)
