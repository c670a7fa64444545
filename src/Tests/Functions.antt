-- ===== src/Tests/Functions.antt =====
-- Tensors as functions of the slot, with blocks of two rows.
use paged_llm.Base.{
  ℕ, zero, suc, ◌+◌, ◌*◌, ◌/◌, ◌%◌, ◌<◌, ◌≡◌, refl, List, [], ◌∷◌, if◌then◌else◌, ◌==◌, length,
  count, get_elem?, some, inl, inr, Bool-cases, arith,
}
use paged_llm.KvCache.{Tensors}
use paged_llm.KvCache.Laws.{Laws}

module _ {Row : Type 0} where
  abbrev pub copy_rows : (ℕ → Row) → List ℕ → List Row → ℕ → Row
  copy_rows t [] rows = t
  copy_rows t (s ∷ slots) [] = t
  copy_rows t (s ∷ slots) (r ∷ rows) = λ j. if s == j then r else copy_rows t slots rows j

  abbrev pub select_blocks : (ℕ → Row) → List ℕ → List Row
  select_blocks t [] = []
  select_blocks t (b ∷ blocks) = t (b * 2 + 0) ∷ t (b * 2 + 1) ∷ select_blocks t blocks

  abbrev pub put_blocks : (ℕ → Row) → List ℕ → List Row → ℕ → Row
  put_blocks t (d ∷ dst) (r ∷ r' ∷ rows) =
      λ j. if d * 2 + 0 == j then r else if d * 2 + 1 == j then r' else put_blocks t dst rows j
  put_blocks t (d ∷ dst) (r ∷ []) = t
  put_blocks t (d ∷ dst) [] = t
  put_blocks t [] rows = t

  abbrev pub functions : Row → Tensors (ℕ → Row) Row
  functions zero_row = record {
    Blocks = List Row;
    zeros = λ num_blocks block_size slot. zero_row;
    index_copy = copy_rows;
    select = select_blocks;
    put = put_blocks;
    reshape = λ rows. rows;
  }

  copied_at :
      (t : ℕ → Row) (slots : List ℕ) (rows : List Row) (i s : ℕ) (r : Row)
      → ((i j x : ℕ) → get_elem? slots i ≡ some x → get_elem? slots j ≡ some x → i ≡ j)
      → length rows ≡ length slots
      → get_elem? slots i ≡ some s
      → get_elem? rows i ≡ some r
      → copy_rows t slots rows s ≡ r
  copied_at t [] rows i s r distinct size at_s at_r = cc
  copied_at t (x ∷ slots) [] i s r distinct size at_s at_r = cc
  copied_at t (x ∷ slots) (y ∷ rows) zero s r distinct size at_s at_r = ground (arith, at_s, at_r)
  copied_at t (x ∷ slots) (y ∷ rows) (suc i) s r distinct size at_s at_r =
      elim (Bool-cases (x == s)) [
        | inl e ↦
            let same : 0 ≡ suc i = distinct 0 (suc i) s (ground (arith, e)) at_s in
            absurd (omega (arith, same))
        | inr e ↦ rw e (
            copied_at t slots rows i s r
              (λ a b v p q. omega (arith, distinct (suc a) (suc b) v p q)) (omega (arith, size))
              at_s at_r)
      ]

  not_copied_at :
      (t : ℕ → Row) (slots : List ℕ) (rows : List Row) (s : ℕ)
      → count s slots ≡ 0
      → copy_rows t slots rows s ≡ t s
  not_copied_at t [] rows s none_of = refl
  not_copied_at t (x ∷ slots) [] s none_of = refl
  not_copied_at t (x ∷ slots) (y ∷ rows) s none_of = ground (arith, not_copied_at t slots rows s)

  selected_size :
      (t : ℕ → Row) (blocks : List ℕ) → length (select_blocks t blocks) ≡ length blocks * 2
  selected_size t [] = refl
  selected_size t (b ∷ blocks) = omega (arith, selected_size t blocks)

  selected_at :
      (t : ℕ → Row) (blocks : List ℕ) (p b : ℕ)
      → get_elem? blocks (p / 2) ≡ some b
      → get_elem? (select_blocks t blocks) p ≡ some (t (b * 2 + p % 2))
  selected_at t [] p b at_p = cc
  selected_at t (x ∷ blocks) zero b at_p = ground (arith, at_p)
  selected_at t (x ∷ blocks) (suc zero) b at_p = ground (arith, at_p)
  selected_at t (x ∷ blocks) (suc (suc p)) b at_p =
      let quotient : suc (suc p) / 2 ≡ suc (p / 2) = omega arith in
      let rest : suc (suc p) % 2 ≡ p % 2 = omega arith in
      let at_p' : get_elem? (x ∷ blocks) (suc (p / 2)) ≡ some b = rw quotient at at_p in
      rw rest (selected_at t blocks p b at_p')

  moved_at :
      (t u : ℕ → Row) (src dst : List ℕ) (i b d o : ℕ)
      → ((i j x : ℕ) → get_elem? dst i ≡ some x → get_elem? dst j ≡ some x → i ≡ j)
      → length src ≡ length dst
      → get_elem? src i ≡ some b
      → get_elem? dst i ≡ some d
      → o < 2
      → put_blocks u dst (select_blocks t src) (d * 2 + o) ≡ t (b * 2 + o)
  moved_at t u [] dst i b d o distinct size at_b at_d lt = cc
  moved_at t u (x ∷ src) [] i b d o distinct size at_b at_d lt = cc
  moved_at t u (x ∷ src) (y ∷ dst) zero b d o distinct size at_b at_d lt =
      ground (arith, at_b, at_d)
  moved_at t u (x ∷ src) (y ∷ dst) (suc i) b d o distinct size at_b at_d lt =
      elim (Bool-cases (y == d)) [
        | inl e ↦
            let same : 0 ≡ suc i = distinct 0 (suc i) d (ground (arith, e)) at_d in
            absurd (omega (arith, same))
        | inr e ↦
            let rest =
              moved_at t u src dst i b d o
                (λ a c v p q. omega (arith, distinct (suc a) (suc c) v p q)) (omega (arith, size))
                at_b at_d lt in
            ground (arith, e, rest)
      ]

  not_moved_at :
      (t u : ℕ → Row) (src dst : List ℕ) (b o : ℕ)
      → count b dst ≡ 0
      → o < 2
      → put_blocks u dst (select_blocks t src) (b * 2 + o) ≡ u (b * 2 + o)
  not_moved_at t u src [] b o none_of lt = refl
  not_moved_at t u [] (y ∷ dst) b o none_of lt = refl
  not_moved_at t u (x ∷ src) (y ∷ dst) b o none_of lt = ground (arith, not_moved_at t u src dst b o)

  pub functions-Laws : (zero_row : Row) (n : ℕ) → Laws (functions zero_row) (λ t s. t s) n 2
  functions-Laws zero_row n = record {
    copied = λ t slots rows i s r below distinct size at_s at_r.
        copied_at t slots rows i s r distinct size at_s at_r;
    not_copied = λ t slots rows s below size none_of. not_copied_at t slots rows s none_of;
    selected_length = λ t blocks below. selected_size t blocks;
    selected = λ t blocks p b below at_p. selected_at t blocks p b at_p;
    moved = λ t src dst i b d o below below' distinct size at_b at_d lt.
        moved_at t t src dst i b d o distinct size at_b at_d lt;
    not_moved =
        λ t src dst b o below below' size none_of lt. not_moved_at t t src dst b o none_of lt;
  }
