-- ===== src/Llama/Rows.antt =====
-- pagedllm/model/llama.py: what is done to each token of a batch is done to the tokens of each sequence.
use paged_llm.Base.{
  ℕ, suc, ◌+◌, ◌-◌, ◌≡◌, refl, sym, ap, ◌∙◌, List, [], ◌∷◌, ◌++◌, map, concat_map, All, length,
  take_append, drop_front, get_elem?, get_elem?_in_range, AllBelow, none, some, ok, arith,
}
use paged_llm.BlockManager.PrefixCache.{slice}
use paged_llm.Llama.{Floats, zip_with, select_rows, rope, rotate}

-- A row of a tensor.
abbrev pub row_or {ℓ} : {A : Type ℓ} → List (List A) → ℕ → List A
row_or rows i = elim (get_elem? rows i) [ none ↦ [] | some r ↦ r ]

pub select_rows_lem {ℓ} :
    {A : Type ℓ} (rows : List (List A)) (is : List ℕ)
    → AllBelow (length rows) is
    → select_rows rows is ≡ ok (map (row_or rows) is)
select_rows_lem rows [] below = refl
select_rows_lem rows (i ∷ is) (lt, below) =
    let (r, at_i) = get_elem?_in_range rows i lt in
    let same : row_or rows i ≡ r = rw (row_or, at_i) in
    rw (at_i, select_rows_lem rows is below) (ap (λ v. ok (v ∷ map (row_or rows) is)) (sym same))

pub map-append {ℓ} :
    {A B : Type ℓ} (f : A → B) (xs ys : List A) → map f (xs ++ ys) ≡ map f xs ++ map f ys
map-append f [] ys = refl
map-append f (x ∷ xs) ys = ap (◌∷◌ (f x)) (map-append f xs ys)

pub map-map {ℓ} :
    {A B C : Type ℓ} (g : B → C) (f : A → B) (xs : List A)
    → map g (map f xs) ≡ map (λ x. g (f x)) xs
map-map g f [] = refl
map-map g f (x ∷ xs) = ap (◌∷◌ (g (f x))) (map-map g f xs)

pub map-concat_map {ℓ} :
    {A B C : Type ℓ} (g : B → C) (f : A → List B) (xs : List A)
    → map g (concat_map f xs) ≡ concat_map (λ x. map g (f x)) xs
map-concat_map g f [] = refl
map-concat_map g f (x ∷ xs) =
    map-append g (f x) (concat_map f xs) ∙ ap (λ q. map g (f x) ++ q) (map-concat_map g f xs)

pub length-zip_with {ℓ} :
    {A B C : Type ℓ} (f : A → B → C) (xs : List A) (ys : List B)
    → length xs ≡ length ys
    → length (zip_with f xs ys) ≡ length ys
length-zip_with f [] [] e = refl
length-zip_with f [] (y ∷ ys) e = absurd (omega (arith, e))
length-zip_with f (x ∷ xs) [] e = absurd (omega (arith, e))
length-zip_with f (x ∷ xs) (y ∷ ys) e = ap suc (length-zip_with f xs ys (omega (arith, e)))

pub zip_with-append {ℓ} :
    {A B C : Type ℓ} (f : A → B → C) (xs xs' : List A) (ys ys' : List B)
    → length xs ≡ length ys
    → zip_with f (xs ++ xs') (ys ++ ys') ≡ zip_with f xs ys ++ zip_with f xs' ys'
zip_with-append f [] xs' [] ys' e = refl
zip_with-append f [] xs' (y ∷ ys) ys' e = absurd (omega (arith, e))
zip_with-append f (x ∷ xs) xs' [] ys' e = absurd (omega (arith, e))
zip_with-append f (x ∷ xs) xs' (y ∷ ys) ys' e =
    ap (◌∷◌ (f x y)) (zip_with-append f xs xs' ys ys' (omega (arith, e)))

-- Two lists that are parted in the same way.
pub zip_with-concat_map {ℓ} :
    {A B C D : Type ℓ} (h : B → C → D) (f : A → List B) (g : A → List C) (xs : List A)
    → All (λ x. length (f x) ≡ length (g x)) xs
    → zip_with h (concat_map f xs) (concat_map g xs) ≡ concat_map (λ x. zip_with h (f x) (g x)) xs
zip_with-concat_map h f g [] all = refl
zip_with-concat_map h f g (x ∷ xs) (same, all) =
    zip_with-append h (f x) (concat_map f xs) (g x) (concat_map g xs) same
    ∙ ap (λ q. zip_with h (f x) (g x) ++ q) (zip_with-concat_map h f g xs all)

pub slice_middle {ℓ} :
    {A : Type ℓ} (front mine behind : List A) (n : ℕ)
    → length mine ≡ n
    → slice (length front) (length front + n) (front ++ (mine ++ behind)) ≡ mine
slice_middle front mine behind n size =
    let width : length front + n - length front ≡ length mine = omega (arith, size) in
    rw (width, drop_front front (mine ++ behind)) (take_append mine behind)

module _ {F Matrix : Type 0} (o : Floats F Matrix) where
  pub length-rope :
      (cos sin : List (List F)) (hs : List (List (List F)))
      → length cos ≡ length hs
      → length sin ≡ length hs
      → length (rope o cos sin hs) ≡ length hs
  length-rope cos sin [] ec es = refl
  length-rope [] sin (h ∷ hs) ec es = absurd (omega (arith, ec))
  length-rope (c ∷ cos) [] (h ∷ hs) ec es = absurd (omega (arith, es))
  length-rope (c ∷ cos) (s ∷ sin) (h ∷ hs) ec es =
      ap suc (length-rope cos sin hs (omega (arith, ec)) (omega (arith, es)))

  pub rope-append :
      (cos cos' sin sin' : List (List F)) (hs hs' : List (List (List F)))
      → length cos ≡ length hs
      → length sin ≡ length hs
      → rope o (cos ++ cos') (sin ++ sin') (hs ++ hs') ≡ rope o cos sin hs ++ rope o cos' sin' hs'
  rope-append [] cos' [] sin' [] hs' ec es = refl
  rope-append (c ∷ cos) cos' sin sin' [] hs' ec es = absurd (omega (arith, ec))
  rope-append [] cos' (s ∷ sin) sin' [] hs' ec es = absurd (omega (arith, es))
  rope-append [] cos' sin sin' (h ∷ hs) hs' ec es = absurd (omega (arith, ec))
  rope-append (c ∷ cos) cos' [] sin' (h ∷ hs) hs' ec es = absurd (omega (arith, es))
  rope-append (c ∷ cos) cos' (s ∷ sin) sin' (h ∷ hs) hs' ec es =
      ap (◌∷◌ (map (rotate o c s) h))
        (rope-append cos cos' sin sin' hs hs' (omega (arith, ec)) (omega (arith, es)))

  pub rope-concat_map :
      {A : Type 0} (cos sin : A → List (List F)) (hs : A → List (List (List F))) (xs : List A)
      → All (λ x. (length (cos x) ≡ length (hs x)) × (length (sin x) ≡ length (hs x))) xs
      → rope o (concat_map cos xs) (concat_map sin xs) (concat_map hs xs)
        ≡ concat_map (λ x. rope o (cos x) (sin x) (hs x)) xs
  rope-concat_map cos sin hs [] all = refl
  rope-concat_map cos sin hs (x ∷ xs) ((ec, es), all) =
      rope-append (cos x) (concat_map cos xs) (sin x) (concat_map sin xs) (hs x) (concat_map hs xs)
        ec es
      ∙ ap (λ q. rope o (cos x) (sin x) (hs x) ++ q) (rope-concat_map cos sin hs xs all)
