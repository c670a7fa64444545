-- ===== src/Tests/Startup.antt =====
-- The theorems on the memory and the weights, at a small model.
use paged_llm.Base.{
  ℕ, ◌+◌, ◌<◌, ◌≤◌, ◌≡◌, ◌⊎◌, refl, List, [], ◌∷◌, Bool, true, false, ok, raise, key_error,
  runtime_error, ◌==◌, arith,
}
use paged_llm.Memory.{
  ModelShape, Readings, Accepted, cache_bytes, profile_num_blocks, profile_num_blocks_lem,
}
use paged_llm.Loader.{Loading, load_weights}
use paged_llm.Loader.Weights.{Unexpected, Missing, Complete, load_weights_lem}
use paged_llm.Tests.Data.{config}

abbrev shape : ModelShape
shape = record { num_hidden_layers = 2; num_key_value_heads = 2; head_dim = 8; element_size = 2 }

abbrev readings : Readings
readings = record {
  on_cuda = true;
  total = 20000;
  free = 19000;
  allocated = 500;
  peak = 1500;
  granted = 18000;
}

-- Others hold 500 bytes; the model and its dummy forward 988, besides the two blocks of its cache.
profile_num_blocks_example :
    ((readings.on_cuda ≡ true)
      × (profile_num_blocks config shape readings ≡ raise runtime_error)
      × (18000 < 1488 + cache_bytes shape 2 16))
    ⊎ ((n : ℕ) × (profile_num_blocks config shape readings ≡ ok n)
        × (16 ≤ n)
        × Accepted config n
        × ((readings.on_cuda ≡ false)
            ⊎ ((1488 + cache_bytes shape 2 n ≤ 18000)
                × (18000 < 1488 + cache_bytes shape 2 (n + 1)))))
profile_num_blocks_example =
    profile_num_blocks_lem config shape readings 500 988 (omega arith) refl refl

-- The parameters 0 to 2, of which 2 is the output layer, and a name 9 that is skipped.
abbrev names : List ℕ
names = 0 ∷ 1 ∷ 2 ∷ []

abbrev is_inv_freq : ℕ → Bool
is_inv_freq n = n == 9

abbrev entries : List (ℕ × ℕ)
entries = (0, 40) ∷ (9, 41) ∷ (1, 42) ∷ []

load_weights_example :
    ((load_weights names is_inv_freq true 2 entries ≡ raise key_error)
      × (Unexpected names is_inv_freq entries ⊎ Missing names is_inv_freq true 2 entries))
    ⊎ ((l : Loading ℕ) × (load_weights names is_inv_freq true 2 entries ≡ ok l)
        × Complete names is_inv_freq true 2 entries l)
load_weights_example = load_weights_lem names is_inv_freq true 2 entries
