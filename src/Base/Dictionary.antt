-- ===== src/Base/Dictionary.antt =====
-- Python's dictionaries: the keys of an OrderedDict as a list in order, and a dict of numbers
-- as an association list.
use Prim.Native.Nat.{ℕ, suc, ◌+◌, ◌<◌}
use mathlib.Core.Path.{◌≡◌, refl}
use mathlib.Core.Bool.{Bool, true, false, ◌||◌}
use mathlib.Core.Option.{Option, none, some}
use mathlib.Core.List.{List, [], ◌∷◌, ◌++◌}
use native.Mathlib.Omega.{arith}
use paged_llm.Base.Test.{◌==◌, if◌then◌else◌}
use paged_llm.Base.Lists.{length, count}
use paged_llm.Base.Exceptions.{Result, Error, ok, raise}

-- `k in d`
abbrev pub contains : ℕ → List ℕ → Bool
contains k [] = false
contains k (x ∷ xs) = x == k || contains k xs

-- The list without the first occurrence.
unfoldable pub erase : ℕ → List ℕ → List ℕ
erase k [] = []
erase k (x ∷ xs) = if x == k then xs else x ∷ erase k xs

-- `del d[k]` of an ordered dictionary, and `xs.remove(k)`: the error tells which.
unfoldable pub remove : Error → ℕ → List ℕ → Result (List ℕ)
unfolding erase
remove e k xs = if contains k xs then ok (erase k xs) else raise e

-- `d[k] = None`: a new key goes to the end, an old one stays where it is.
unfoldable pub put_key : ℕ → List ℕ → List ℕ
put_key k xs = if contains k xs then xs else xs ++ k ∷ []

pub contains_of_count : (k : ℕ) (xs : List ℕ) → count k xs ≡ 0 → contains k xs ≡ false
contains_of_count k [] h = refl
contains_of_count k (x ∷ xs) h = ground (arith, contains_of_count k xs)

-- A new key goes to the end.
pub put_key_new : (k : ℕ) (xs : List ℕ) → count k xs ≡ 0 → put_key k xs ≡ xs ++ k ∷ []
unfolding put_key
put_key_new k xs h = rw (contains_of_count k xs h)

pub contains_of_mem : (k : ℕ) (xs : List ℕ) → 0 < count k xs → contains k xs ≡ true
contains_of_mem k [] h = absurd (omega arith)
contains_of_mem k (x ∷ xs) h = ground (arith, contains_of_mem k xs)

pub count-erase :
    (c k : ℕ) (xs : List ℕ)
    → 0 < count k xs
    → count c xs ≡ (if k == c then 1 else 0) + count c (erase k xs)
unfolding erase
count-erase c k [] h = absurd (omega arith)
count-erase c k (x ∷ xs) h = ground (arith, count-erase c k xs)

pub length-erase : (k : ℕ) (xs : List ℕ) → 0 < count k xs → length xs ≡ suc (length (erase k xs))
unfolding erase
length-erase k [] h = absurd (omega arith)
length-erase k (x ∷ xs) h = ground (arith, length-erase k xs)

pub mem_of_contains : (k : ℕ) (xs : List ℕ) → contains k xs ≡ true → 0 < count k xs
mem_of_contains k [] h = cc
mem_of_contains k (x ∷ xs) h = ground (arith, mem_of_contains k xs)

pub absent_of_contains : (k : ℕ) (xs : List ℕ) → contains k xs ≡ false → count k xs ≡ 0
absent_of_contains k [] h = refl
absent_of_contains k (x ∷ xs) h = ground (arith, absent_of_contains k xs)

-- A key that is there is taken out.
pub remove_present :
    (e : Error) (k : ℕ) (xs : List ℕ) → 0 < count k xs → remove e k xs ≡ ok (erase k xs)
unfolding remove
remove_present e k xs h = rw (contains_of_mem k xs h)

-- The last of distinct elements is taken out from the end.
pub erase_last : (k : ℕ) (xs : List ℕ) → count k xs ≡ 0 → erase k (xs ++ k ∷ []) ≡ xs
unfolding erase
erase_last k [] h = ground arith
erase_last k (x ∷ xs) h = ground (arith, erase_last k xs)

pub erase_middle : (k : ℕ) (xs ys : List ℕ) → count k xs ≡ 0 → erase k (xs ++ k ∷ ys) ≡ xs ++ ys
unfolding erase
erase_middle k [] ys h = ground arith
erase_middle k (x ∷ xs) ys h = ground (arith, erase_middle k xs ys)

-- A dict: the value of a key, `d[k] = v`, and `del d[k]`.
abbrev pub Dict : Type 0
Dict = List (ℕ × ℕ)

unfoldable pub lookup : ℕ → Dict → Option ℕ
lookup k [] = none
lookup k ((j, v) ∷ d) = if j == k then some v else lookup k d

unfoldable pub insert : ℕ → ℕ → Dict → Dict
insert k v [] = (k, v) ∷ []
insert k v ((j, w) ∷ d) = if j == k then (k, v) ∷ d else (j, w) ∷ insert k v d

unfoldable pub delete : ℕ → Dict → Dict
delete k [] = []
delete k ((j, w) ∷ d) = if j == k then delete k d else (j, w) ∷ delete k d

pub lookup-insert :
    (j k v : ℕ) (d : Dict) → lookup j (insert k v d) ≡ (if k == j then some v else lookup j d)
unfolding lookup insert
lookup-insert j k v [] = refl
lookup-insert j k v ((i, w) ∷ d) = ground (arith, lookup-insert j k v d)

pub lookup-delete :
    (j k : ℕ) (d : Dict) → lookup j (delete k d) ≡ (if k == j then none else lookup j d)
unfolding lookup delete
lookup-delete j k [] = ground arith
lookup-delete j k ((i, w) ∷ d) = ground (arith, lookup-delete j k d)
