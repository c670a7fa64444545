-- ===== src/Base/Lists.antt =====
-- Lists measured and indexed by native numbers, under the library's names.
use Prim.Native.Nat.{ℕ, zero, suc, ◌+◌, ◌-◌, ◌<◌, ◌≤◌}
use mathlib.Core.Path.{◌≡◌, refl, ap, ◌∙◌}
use mathlib.Core.Logic.{◌⊎◌, ◌≢◌, inl, inr}
use mathlib.Core.List.{List, [], ◌∷◌, ◌++◌, map, reverse, reverse-cons, reverse-append}
use mathlib.Core.Option.{Option, none, some}
use native.Mathlib.Omega.{arith}
use paged_llm.Base.Test.{◌==◌, if◌then◌else◌, Bool-cases}

module _ {ℓ} {A : Type ℓ} where
  abbrev pub length : List A → ℕ
  length [] = 0
  length (x ∷ xs) = suc (length xs)

  abbrev pub get_elem? : List A → ℕ → Option A
  get_elem? [] i = none
  get_elem? (x ∷ xs) zero = some x
  get_elem? (x ∷ xs) (suc i) = get_elem? xs i

  abbrev pub set : List A → ℕ → A → List A
  set [] i v = []
  set (x ∷ xs) zero v = v ∷ xs
  set (x ∷ xs) (suc i) v = x ∷ set xs i v

  abbrev pub take : ℕ → List A → List A
  take zero xs = []
  take (suc n) [] = []
  take (suc n) (x ∷ xs) = x ∷ take n xs

  abbrev pub drop : ℕ → List A → List A
  drop zero xs = xs
  drop (suc n) [] = []
  drop (suc n) (x ∷ xs) = drop n xs

  pub length-append : (xs ys : List A) → length (xs ++ ys) ≡ length xs + length ys
  length-append [] ys = omega arith
  length-append (x ∷ xs) ys = omega (arith, length-append xs ys)

  pub length-set : (xs : List A) (i : ℕ) (v : A) → length (set xs i v) ≡ length xs
  length-set [] i v = refl
  length-set (x ∷ xs) zero v = refl
  length-set (x ∷ xs) (suc i) v = ap suc (length-set xs i v)

  pub take_append : (xs ys : List A) → take (length xs) (xs ++ ys) ≡ xs
  take_append [] ys = refl
  take_append (x ∷ xs) ys = ap (◌∷◌ x) (take_append xs ys)

  pub take_append_length : (xs ys : List A) → take (length (xs ++ ys) - length ys) (xs ++ ys) ≡ xs
  take_append_length xs ys =
      let e : length (xs ++ ys) - length ys ≡ length xs = omega (arith, length-append xs ys) in
      rw e (take_append xs ys)

  pub get_elem?-append_left :
      (xs ys : List A) (i : ℕ) → i < length xs → get_elem? (xs ++ ys) i ≡ get_elem? xs i
  get_elem?-append_left [] ys i h = elim h [ ]
  get_elem?-append_left (x ∷ xs) ys zero h = refl
  get_elem?-append_left (x ∷ xs) ys (suc i) h = get_elem?-append_left xs ys i (omega arith)

  pub get_elem?-append_right :
      (xs ys : List A) (i : ℕ) → get_elem? (xs ++ ys) (length xs + i) ≡ get_elem? ys i
  get_elem?-append_right [] ys i = ap (get_elem? ys) (omega arith)
  get_elem?-append_right (x ∷ xs) ys i =
      let e : suc (length xs) + i ≡ suc (length xs + i) = omega arith in
      rw e (get_elem?-append_right xs ys i)

  pub get_elem?_bound : (xs : List A) (i : ℕ) {x : A} → get_elem? xs i ≡ some x → i < length xs
  get_elem?_bound [] i h = cc
  get_elem?_bound (y ∷ ys) zero h = omega arith
  get_elem?_bound (y ∷ ys) (suc i) h = omega (arith, get_elem?_bound ys i h)

  pub get_elem?-set_self :
      (xs : List A) (i : ℕ) (v : A) → i < length xs → get_elem? (set xs i v) i ≡ some v
  get_elem?-set_self [] i v h = elim h [ ]
  get_elem?-set_self (x ∷ xs) zero v h = refl
  get_elem?-set_self (x ∷ xs) (suc i) v h = get_elem?-set_self xs i v (omega arith)

  pub get_elem?-set_ne :
      (xs : List A) (i j : ℕ) (v : A) → i ≢ j → get_elem? (set xs i v) j ≡ get_elem? xs j
  get_elem?-set_ne [] i j v h = refl
  get_elem?-set_ne (x ∷ xs) zero zero v h = absurd (h refl)
  get_elem?-set_ne (x ∷ xs) zero (suc j) v h = refl
  get_elem?-set_ne (x ∷ xs) (suc i) zero v h = refl
  get_elem?-set_ne (x ∷ xs) (suc i) (suc j) v h = get_elem?-set_ne xs i j v (λ e. h (ap suc e))

  -- An index in range has an element.
  pub get_elem?_in_range :
      (xs : List A) (i : ℕ) → i < length xs → (x : A) × (get_elem? xs i ≡ some x)
  get_elem?_in_range [] i h = elim h [ ]
  get_elem?_in_range (x ∷ xs) zero h = (x, refl)
  get_elem?_in_range (x ∷ xs) (suc i) h = get_elem?_in_range xs i (omega arith)

module _ {ℓ} {A : Type ℓ} where
  -- The first `m` elements are the first `n` and those behind them.
  pub take_split :
      (n k m : ℕ) (xs : List A) → m ≡ n + k → take m xs ≡ take n xs ++ take k (drop n xs)
  take_split zero k m xs e = let e' : m ≡ k = omega arith in rw e' refl
  take_split (suc n) k zero xs e = absurd (omega arith)
  take_split (suc n) zero (suc m) [] e = refl
  take_split (suc n) (suc k) (suc m) [] e = refl
  take_split (suc n) k (suc m) (x ∷ xs) e = ap (◌∷◌ x) (take_split n k m xs (omega arith))

  pub drop-take : (n k m : ℕ) (xs : List A) → m ≡ n + k → drop n (take m xs) ≡ take k (drop n xs)
  drop-take zero k m xs e = let e' : m ≡ k = omega arith in rw e' refl
  drop-take (suc n) k zero xs e = absurd (omega arith)
  drop-take (suc n) zero (suc m) [] e = refl
  drop-take (suc n) (suc k) (suc m) [] e = refl
  drop-take (suc n) k (suc m) (x ∷ xs) e = drop-take n k m xs (omega arith)

  pub take-take : (n m : ℕ) (xs : List A) → n ≤ m → take n (take m xs) ≡ take n xs
  take-take zero m xs h = refl
  take-take (suc n) zero xs h = absurd (omega arith)
  take-take (suc n) (suc m) [] h = refl
  take-take (suc n) (suc m) (x ∷ xs) h = ap (◌∷◌ x) (take-take n m xs (omega arith))

module _ {ℓ} {A : Type ℓ} where
  -- Lists that are long enough and have the same elements at the first indices.
  pub take_ext :
      (n : ℕ) (xs ys : List A)
      → n ≤ length xs
      → n ≤ length ys
      → ((i : ℕ) → i < n → get_elem? xs i ≡ get_elem? ys i)
      → take n xs ≡ take n ys
  take_ext zero xs ys hx hy same = refl
  take_ext (suc n) [] ys hx hy same = absurd (omega arith)
  take_ext (suc n) (x ∷ xs) [] hx hy same = absurd (omega arith)
  take_ext (suc n) (x ∷ xs) (y ∷ ys) hx hy same =
      let rest = take_ext n xs ys (omega arith) (omega arith) (λ i h. same (suc i) (omega arith)) in
      ap (λ v. v ∷ take n xs) (some_injective (same 0 (omega arith))) ∙ ap (◌∷◌ y) rest
    where
      some_injective : {a b : A} → some a ≡ some b → a ≡ b
      some_injective e = cc

module _ {ℓ} {A : Type ℓ} where
  pub length-take : (n : ℕ) (xs : List A) → n ≤ length xs → length (take n xs) ≡ n
  length-take zero xs h = refl
  length-take (suc n) [] h = absurd (omega arith)
  length-take (suc n) (x ∷ xs) h = ap suc (length-take n xs (omega arith))

  pub get_elem?-take : (n i : ℕ) (xs : List A) → i < n → get_elem? (take n xs) i ≡ get_elem? xs i
  get_elem?-take zero i xs h = absurd (omega arith)
  get_elem?-take (suc n) i [] h = refl
  get_elem?-take (suc n) zero (x ∷ xs) h = refl
  get_elem?-take (suc n) (suc i) (x ∷ xs) h = get_elem?-take n i xs (omega arith)

  -- Lists with the same elements.
  pub list_ext :
      (xs ys : List A)
      → length xs ≡ length ys
      → ((i : ℕ) → i < length ys → get_elem? xs i ≡ get_elem? ys i)
      → xs ≡ ys
  list_ext [] [] size same = refl
  list_ext [] (y ∷ ys) size same = absurd (omega (arith, size))
  list_ext (x ∷ xs) [] size same = absurd (omega (arith, size))
  list_ext (x ∷ xs) (y ∷ ys) size same =
      let rest = list_ext xs ys (omega (arith, size)) (λ i h. same (suc i) (omega arith)) in
      ap (λ v. v ∷ xs) (some_injective (same 0 (omega arith))) ∙ ap (◌∷◌ y) rest
    where
      some_injective : {a b : A} → some a ≡ some b → a ≡ b
      some_injective e = cc

-- `[y for x in xs for y in f(x)]`
abbrev pub concat_map {ℓ} : {A B : Type ℓ} → (A → List B) → List A → List B
concat_map f [] = []
concat_map f (x ∷ xs) = f x ++ concat_map f xs

-- Every element has the property.
abbrev pub All {ℓ ℓ'} : {A : Type ℓ} → (A → Type ℓ') → List A → Type ℓ'
All P [] = Unit
All P (x ∷ xs) = P x × All P xs

pub All-mono {ℓ ℓ'} :
    {A : Type ℓ} {P Q : A → Type ℓ'} (xs : List A) → ((x : A) → P x → Q x) → All P xs → All Q xs
All-mono [] h all = tt
All-mono (x ∷ xs) h (p, all) = (h x p, All-mono xs h all)

pub All-map {ℓ ℓ'} :
    {A B : Type ℓ} (P : B → Type ℓ') (f : A → B) (xs : List A)
    → All (λ x. P (f x)) xs
    → All P (map f xs)
All-map P f [] all = tt
All-map P f (x ∷ xs) (p, all) = (p, All-map P f xs all)

pub All-of_map {ℓ ℓ'} :
    {A B : Type ℓ} (P : B → Type ℓ') (f : A → B) (xs : List A)
    → All P (map f xs)
    → All (λ x. P (f x)) xs
All-of_map P f [] all = tt
All-of_map P f (x ∷ xs) (p, all) = (p, All-of_map P f xs all)

pub concat_map-map {ℓ} :
    {A B C : Type ℓ} (g : B → List C) (f : A → B) (xs : List A)
    → concat_map g (map f xs) ≡ concat_map (λ x. g (f x)) xs
concat_map-map g f [] = refl
concat_map-map g f (x ∷ xs) = ap (λ q. g (f x) ++ q) (concat_map-map g f xs)

pub drop_front {ℓ} : {A : Type ℓ} (xs ys : List A) → drop (length xs) (xs ++ ys) ≡ ys
drop_front [] ys = refl
drop_front (x ∷ xs) ys = drop_front xs ys

pub List-cases {ℓ} :
    {A : Type ℓ} (xs : List A) → (xs ≡ []) ⊎ ((x : A) × (ys : List A) × (xs ≡ x ∷ ys))
List-cases [] = inl refl
List-cases (x ∷ xs) = inr (x, xs, refl)

-- `xs[-1]`
abbrev pub last? {ℓ} : {A : Type ℓ} → List A → Option A
last? [] = none
last? (x ∷ []) = some x
last? (x ∷ y ∷ ys) = last? (y ∷ ys)

pub last?-append {ℓ} : {A : Type ℓ} (xs : List A) (v : A) → last? (xs ++ v ∷ []) ≡ some v
last?-append [] v = refl
last?-append (x ∷ []) v = refl
last?-append (x ∷ y ∷ ys) v = last?-append (y ∷ ys) v

pub snoc_cases {ℓ} :
    {A : Type ℓ} (xs : List A) → (xs ≡ []) ⊎ ((ys : List A) × (v : A) × (xs ≡ ys ++ v ∷ []))
snoc_cases [] = inl refl
snoc_cases (x ∷ xs) = elim (snoc_cases xs) [
  | inl e ↦ inr ([], x, ap (◌∷◌ x) e)
  | inr (ys, v, e) ↦ inr (x ∷ ys, v, ap (◌∷◌ x) e)
]

-- How often a number stands in a list.
abbrev pub count : ℕ → List ℕ → ℕ
count b [] = 0
count b (x ∷ xs) = (if x == b then 1 else 0) + count b xs

pub count-append : (b : ℕ) (xs ys : List ℕ) → count b (xs ++ ys) ≡ count b xs + count b ys
count-append b [] ys = omega arith
count-append b (x ∷ xs) ys = omega (arith, count-append b xs ys)

pub reverse-snoc : (xs : List ℕ) (x : ℕ) → reverse (xs ++ x ∷ []) ≡ x ∷ reverse xs
reverse-snoc xs x = reverse-append xs (x ∷ [])

pub count-reverse : (b : ℕ) (xs : List ℕ) → count b (reverse xs) ≡ count b xs
count-reverse b [] = refl
count-reverse b (x ∷ xs) = omega (
  arith,
  ap (count b) (reverse-cons x xs),
  count-append b (reverse xs) (x ∷ []),
  count-reverse b xs,
)

-- Writing `v` over `x` moves one occurrence from `x` to `v`.
pub count-set :
    (b : ℕ) (xs : List ℕ) (i x v : ℕ)
    → get_elem? xs i ≡ some x
    → count b (set xs i v) + (if x == b then 1 else 0) ≡ count b xs + (if v == b then 1 else 0)
count-set b [] i x v h = ground arith
count-set b (y ∷ ys) zero x v h = ground arith
count-set b (y ∷ ys) (suc i) x v h = omega (arith, count-set b ys i x v h)

-- Every number of the list is below the bound.
abbrev pub AllBelow : ℕ → List ℕ → Type 0
AllBelow n [] = Unit {0}
AllBelow n (x ∷ xs) = (x < n) × AllBelow n xs

pub AllBelow-of_count : (n : ℕ) (xs : List ℕ) → ((b : ℕ) → 0 < count b xs → b < n) → AllBelow n xs
AllBelow-of_count n [] h = tt
AllBelow-of_count n (x ∷ xs) h =
    (h x (ground arith), AllBelow-of_count n xs (λ b p. h b (omega arith)))

pub below_of_AllBelow : (n b : ℕ) (xs : List ℕ) → AllBelow n xs → 0 < count b xs → b < n
below_of_AllBelow n b [] h p = absurd (omega arith)
below_of_AllBelow n b (x ∷ xs) h p = ground (arith, below_of_AllBelow n b xs h.1)

-- An element at an index occurs.
pub count-get_elem? : (xs : List ℕ) (i x : ℕ) → get_elem? xs i ≡ some x → 0 < count x xs
count-get_elem? [] i x h = cc
count-get_elem? (y ∷ ys) zero x h = ground arith
count-get_elem? (y ∷ ys) (suc i) x h = omega (arith, count-get_elem? ys i x h)

-- What occurs has an index.
pub index_of_count : (x : ℕ) (xs : List ℕ) → 0 < count x xs → (i : ℕ) × (get_elem? xs i ≡ some x)
index_of_count x [] h = absurd (omega arith)
index_of_count x (y ∷ ys) h = elim (Bool-cases (y == x)) [
  | inl e ↦ (0, ground (arith, e))
  | inr e ↦ let (i, at_i) = index_of_count x ys (ground (arith, e)) in (suc i, at_i)
]
