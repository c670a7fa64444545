-- ===== src/Tests/Model.antt =====
-- The theorem on the model, for numbers as the elements of tensors.
use paged_llm.Base.{
  ℕ, zero, suc, ◌+◌, ◌*◌, ◌<◌, ◌≤◌, ◌≡◌, refl, List, [], ◌∷◌, map, Bool, length, count, get_elem?,
  some, Result, arith,
}
use paged_llm.BlockManager.Sequences.{SlotAt}
use paged_llm.BlockManager.{range_from}
use paged_llm.Runner.Shapes.{length-map}
use paged_llm.KvCache.{KvCache, gather}
use paged_llm.KvCache.Parts.{Part, IsOwner}
use paged_llm.Llama.{Floats, DecoderLayer, Llama, AttentionMetadata, forward}
use paged_llm.Llama.Rows.{row_or}
use paged_llm.Llama.Dense.{Session, dense_layers}
use paged_llm.Llama.Layer.{part_of}
use paged_llm.Llama.Layers.{Describes}
use paged_llm.Llama.Stack.{HoldsAt}
use paged_llm.Llama.Forward.{Forwarded, forward-Forwarded}
use paged_llm.Llama.Backend.{reference_backend, reference_backend-IsPagedAttention}
use paged_llm.Tests.Functions.{functions, functions-Laws}
use paged_llm.Tests.Data.{pool2, decoding}

abbrev pub floats : Floats ℕ ℕ
floats = record {
  add = λ a b. a + b;
  mul = λ a b. a * b;
  neg = λ a. a;
  square = λ a. a * a;
  rsqrt = λ a. a;
  silu = λ a. a;
  to_float = λ a. a;
  to_dtype = λ a. a;
  mean = length;
  linear = λ n. map (λ a. a + n);
}

abbrev layer : DecoderLayer ℕ ℕ
layer = record {
  q_proj = 1;
  k_proj = 2;
  v_proj = 3;
  o_proj = 4;
  gate_proj = 5;
  up_proj = 6;
  down_proj = 7;
  input_layernorm = 1 ∷ 1 ∷ [];
  post_attention_layernorm = 1 ∷ 2 ∷ [];
}

abbrev table : List (List ℕ)
table = (1 ∷ 1 ∷ []) ∷ (2 ∷ 1 ∷ []) ∷ (1 ∷ 2 ∷ []) ∷ (2 ∷ 2 ∷ []) ∷ []

abbrev pub llama : Llama ℕ ℕ
llama = record {
  num_heads = 1;
  num_kv_heads = 1;
  head_dim = 2;
  scale = 1;
  eps = 1;
  embed_tokens = table;
  layers = layer ∷ [];
  norm = 1 ∷ 1 ∷ [];
  cos = table;
  sin = table;
  lm_head = 2;
}

-- Adds to the queries the number of keys.
abbrev pub attend :
    List (List (List ℕ))
    → List (List (List ℕ))
    → List (List (List ℕ))
    → (ℕ → ℕ → Bool)
    → List (List (List ℕ))
attend q k v mask = map (λ h. map (map (λ a. a + length k)) h) q

pub attend_keeps :
    (q k v : List (List (List ℕ))) (mask : ℕ → ℕ → Bool) → length (attend q k v mask) ≡ length q
attend_keeps q k v mask = length-map (λ h. map (map (λ a. a + length k)) h) q

abbrev pub tensor : ℕ → List (List ℕ)
tensor slot = (slot ∷ 1 ∷ []) ∷ []

abbrev pub cache : KvCache (ℕ → List (List ℕ))
cache = record {
  num_layers = 1;
  num_blocks = 4;
  block_size = 2;
  k_caches = tensor ∷ [];
  v_caches = tensor ∷ [];
}

-- Two sequences that share the first block, with two new tokens and one.
abbrev first : Part
first = record { seq = decoding; start = 2; num = 2 }

abbrev second : Part
second = record { seq = record decoding { block_table = 0 ∷ 3 ∷ [] }; start = 2; num = 1 }

abbrev held : Part → List (List (List ℕ))
held g = gather (functions []) 2 tensor g.seq.block_table g.start

abbrev sessions : List (Session ℕ)
sessions =
    record {
      part = first;
      x = row_or table 1 ∷ row_or table 3 ∷ [];
      keys = λ j. held first;
      values = λ j. held first;
    }
    ∷ record {
      part = second;
      x = row_or table 0 ∷ [];
      keys = λ j. held second;
      values = λ j. held second;
    }
    ∷ []

abbrev metadata : AttentionMetadata
metadata = record {
  slot_mapping = 2 ∷ 3 ∷ 6 ∷ [];
  block_tables = (0 ∷ 1 ∷ []) ∷ (0 ∷ 3 ∷ []) ∷ [];
  cu_seqlens_q = 0 ∷ 2 ∷ 3 ∷ [];
  seq_lens_k = 4 ∷ 3 ∷ [];
  max_q_len = 2;
}

first_slots : (i : ℕ) → i < 2 → SlotAt pool2 decoding (2 ∷ 3 ∷ []) 2 i
first_slots zero lt = (1, refl, refl)
first_slots (suc zero) lt = (1, refl, refl)
first_slots (suc (suc i)) lt = absurd (omega arith)

second_slots : (i : ℕ) → i < 1 → SlotAt pool2 second.seq (6 ∷ []) 2 i
second_slots zero lt = (3, refl, refl)
second_slots (suc i) lt = absurd (omega arith)

-- The last of two blocks is referred to once.
alone_of :
    (x i b : ℕ)
    → count x (0 ∷ 1 ∷ 0 ∷ 3 ∷ []) ≡ 1
    → 1 ≤ i
    → get_elem? (0 ∷ x ∷ []) i ≡ some b
    → count b (0 ∷ 1 ∷ 0 ∷ 3 ∷ []) ≡ 1
alone_of x zero b once le at_b = absurd (omega arith)
alone_of x (suc zero) b once le at_b = ground (arith, at_b)
alone_of x (suc (suc i)) b once le at_b = cc

first-IsOwner : IsOwner pool2 (0 ∷ 1 ∷ 0 ∷ 3 ∷ []) first
first-IsOwner = record {
  below = (omega arith, (omega arith, tt));
  covers = omega arith;
  alone = λ i b le at_b. alone_of 1 i b refl le at_b;
}

second-IsOwner : IsOwner pool2 (0 ∷ 1 ∷ 0 ∷ 3 ∷ []) second
second-IsOwner = record {
  below = (omega arith, (omega arith, tt));
  covers = omega arith;
  alone = λ i b le at_b. alone_of 3 i b refl le at_b;
}

abbrev pub backend :
    List (List (List ℕ))
    → (ℕ → List (List ℕ))
    → (ℕ → List (List ℕ))
    → List (List ℕ)
    → List ℕ
    → List ℕ
    → ℕ
    → ℕ
    → Result (List (List (List ℕ)))
backend = reference_backend floats attend attend_keeps llama (functions []) 2

metadata-Describes :
    Describes floats attend attend_keeps llama
      (functions [])
      (λ t s. t s)
      pool2
      (functions-Laws [] 4)
      (0 ∷ 1 ∷ 0 ∷ 3 ∷ [])
      (omega arith)
      backend
      (reference_backend-IsPagedAttention floats attend attend_keeps llama (functions []) 2)
      metadata
      (map part_of sessions)
metadata-Describes = record {
  owners = (first-IsOwner, (second-IsOwner, tt));
  placed =
      (2 ∷ 3 ∷ [], 6 ∷ [], refl, refl, first_slots, (6 ∷ [], [], refl, refl, second_slots, refl));
  held = λ b. omega arith;
  width = 2;
  batch = (refl, refl, refl, refl, (refl, refl, refl, refl, tt));
  lens = refl;
}

cache_holds :
    (j : ℕ)
    → j < 1
    → HoldsAt floats attend attend_keeps llama
        (functions [])
        (λ t s. t s)
        pool2
        (functions-Laws [] 4)
        (0 ∷ 1 ∷ 0 ∷ 3 ∷ [])
        (omega arith)
        backend
        (reference_backend-IsPagedAttention floats attend attend_keeps llama (functions []) 2)
        cache
        j
        (λ s. s.part.start)
        (λ s. s)
        sessions
cache_holds zero lt = (tensor, tensor, refl, refl, ((refl, refl), ((refl, refl), tt)))
cache_holds (suc j) lt = absurd (omega arith)

forward-Forwarded_example :
    Forwarded floats attend attend_keeps llama
      (functions [])
      (λ t s. t s)
      pool2
      (functions-Laws [] 4)
      (0 ∷ 1 ∷ 0 ∷ 3 ∷ [])
      (omega arith)
      backend
      (reference_backend-IsPagedAttention floats attend attend_keeps llama (functions []) 2)
      sessions
      (1 ∷ 2 ∷ [])
      (forward floats
        (functions [])
        backend
        llama
        (1 ∷ 3 ∷ 0 ∷ [])
        (2 ∷ 3 ∷ 2 ∷ [])
        cache
        metadata
        (1 ∷ 2 ∷ []))
unfolding range_from dense_layers
forward-Forwarded_example =
    forward-Forwarded floats attend attend_keeps llama (functions []) (λ t s. t s) pool2
      (functions-Laws [] 4) (0 ∷ 1 ∷ 0 ∷ 3 ∷ []) (omega arith) backend
      (reference_backend-IsPagedAttention floats attend attend_keeps llama (functions []) 2)
      sessions (1 ∷ 3 ∷ 0 ∷ []) cache metadata (1 ∷ 2 ∷ []) metadata-Describes
      (omega arith, (omega arith, (omega arith, tt))) refl
      (
        (omega arith, (omega arith, (omega arith, tt))),
        (omega arith, (omega arith, (omega arith, tt))),
      )
      (refl, (refl, tt)) (omega arith, (omega arith, tt)) cache_holds
