-- ===== src/Loader.antt =====
-- pagedllm/model/loader.py: which weights `load_model` takes from the files.
-- A name of a weight is a number; `skipped` tells the names with the suffix of the inverse
-- frequencies. The files are read by safetensors: a parameter lists their names and tensors, of any
-- type `T`, converted already.
pub mod Sets
pub mod Weights
use paged_llm.Base.{
  ℕ, zero, suc, ap, subst, count-append, ◌++◌, ◌<◌, ◌≡◌, ◌⊎◌, inl, inr, refl, List, [], ◌∷◌, Bool,
  true, false, not, ◌&&◌, ◌||◌, Option, none, some, if◌then◌else◌, ◌==◌, contains, count, put_key,
  mem_of_contains, absent_of_contains, contains_of_mem, eq→==, ◌≢◌, get_elem?, Result, ok, raise,
  key_error, arith, Bool-cases, ◌>>=◌, ◌>>◌, guard,
}

-- The parameters that have their weight, in the order of a set, and the weights.
pub record Loading (T : Type 0) : Type 0 where
  pub loaded : List ℕ
  pub weights : ℕ → Option T

-- `set(params) - loaded`, less the output layer if it is tied.
abbrev pub missing : Bool → ℕ → List ℕ → List ℕ → List ℕ
missing tied lm_head loaded [] = []
missing tied lm_head loaded (p ∷ ps) =
    if contains p loaded || (tied && p == lm_head)
    then missing tied lm_head loaded ps
    else p ∷ missing tied lm_head loaded ps

abbrev pub nothing_missing : List ℕ → Bool
nothing_missing [] = true
nothing_missing (p ∷ ps) = false

module _ {T : Type 0} (params : List ℕ) (skipped : ℕ → Bool) where
  unfoldable pub load_entry : Loading T → ℕ → T → Result (Loading T)
  unfolding put_key
  load_entry l name tensor =
      if contains name params
      then ok (record {
        loaded = put_key name l.loaded;
        weights = λ j. if name == j then some tensor else l.weights j;
      })
      else if skipped name
      then ok l
      else raise key_error

  -- The loops over the files and the names in each.
  unfoldable pub load_entries : Loading T → List (ℕ × T) → Result (Loading T)
  unfolding load_entry
  load_entries l [] = ok l
  load_entries l ((name, tensor) ∷ entries) = do
    l' ← load_entry l name tensor
    load_entries l' entries

  unfoldable pub load_weights : Bool → ℕ → List (ℕ × T) → Result (Loading T)
  unfolding load_entries
  load_weights tied lm_head entries = do
    l ← load_entries (record { loaded = []; weights = λ j. none }) entries
    guard (nothing_missing (missing tied lm_head l.loaded params)) key_error
    ok l
