-- ===== src/Tests/Tensors.antt =====
-- The theorems on the paged cache, for tensors of numbers.
use paged_llm.Base.{
  Bool, map, ℕ, zero, suc, ◌+◌, ◌≤◌, ◌≡◌, refl, List, [], ◌∷◌, length, count, get_elem?, some, inl,
  inr, ok, arith,
}
use paged_llm.BlockManager.Slots.{slot_mapping}
use paged_llm.BlockManager.{CopyOnWrite}
use paged_llm.KvCache.{Tensors, KvCache, write_cache, apply_copies}
use paged_llm.KvCache.Copy.{Replaced, Copies, SameRows, apply_copies-gather_kv}
use paged_llm.KvCache.Write.{ReadsBack, write_cache-gather_kv}
use paged_llm.Sequence.{Sequence}
use paged_llm.KvCache.Isolation.{Unseen, write_cache-Unseen}
use paged_llm.Runner.Shapes.{length-map}
use paged_llm.Attention.Reference.{paged_attention_reference}
use paged_llm.Attention.Segments.{Segment, each_alone, paged_attention_reference_lem}
use paged_llm.Tests.Data.{pool2, decoding}
use paged_llm.KvCache.Laws.{Laws}
use paged_llm.Tests.Functions.{functions, functions-Laws}

abbrev numbers : Tensors (ℕ → ℕ) ℕ
numbers = functions 0

numbers-Laws : (n : ℕ) → Laws numbers (λ t s. t s) n 2
numbers-Laws = functions-Laws 0

abbrev tensors : KvCache (ℕ → ℕ)
tensors = record {
  num_layers = 1;
  num_blocks = 4;
  block_size = 2;
  k_caches = (λ slot. slot) ∷ [];
  v_caches = (λ slot. slot + 10) ∷ [];
}

write_cache-gather_kv_example :
    (slots : List ℕ) × (slot_mapping pool2 decoding 2 2 ≡ ok slots)
    × ReadsBack numbers
        (λ t s. t s)
        pool2
        (numbers-Laws 4)
        tensors
        (λ slot. slot)
        (λ slot. slot + 10)
        0
        decoding
        2
        (7 ∷ 8 ∷ [])
        (9 ∷ 10 ∷ [])
        (write_cache numbers tensors 0 (7 ∷ 8 ∷ []) (9 ∷ 10 ∷ []) slots)
write_cache-gather_kv_example =
    write_cache-gather_kv numbers (λ t s. t s) pool2 (numbers-Laws 4) tensors (λ slot. slot)
      (λ slot. slot + 10) 0 decoding 2 (7 ∷ 8 ∷ []) (9 ∷ 10 ∷ []) (omega arith) (omega arith) refl
      (λ b. ground arith) (omega arith, (omega arith, tt)) refl refl

-- Block 2 is a copy of block 1.
abbrev cow : CopyOnWrite
cow = record { src_block = 1; dst_block = 2 }

cow-Replaced : Replaced (1 ∷ []) (2 ∷ []) (0 ∷ 1 ∷ []) (0 ∷ 2 ∷ [])
cow-Replaced zero b at_b = inl (at_b, ground (arith, at_b))
cow-Replaced (suc zero) b at_b = inr (0, 2, at_b, refl, refl)
cow-Replaced (suc (suc i)) b at_b = cc

cow-Copies : Copies numbers (λ t s. t s) 4 2 (numbers-Laws 4) (cow ∷ [])
cow-Copies = record {
  sources_below = (omega arith, tt);
  targets_below = (omega arith, tt);
  distinct = only;
}
  where
    only : (i j x : ℕ) → get_elem? (2 ∷ []) i ≡ some x → get_elem? (2 ∷ []) j ≡ some x → i ≡ j
    only zero zero x p q = refl
    only zero (suc j) x p q = cc
    only (suc i) j x p q = cc

apply_copies-gather_kv_example :
    SameRows numbers
      (λ t s. t s)
      4
      2
      (numbers-Laws 4)
      tensors
      (0 ∷ 1 ∷ [])
      (0 ∷ 2 ∷ [])
      3
      (apply_copies numbers tensors (cow ∷ []))
apply_copies-gather_kv_example =
    apply_copies-gather_kv numbers (λ t s. t s) 4 2 (numbers-Laws 4) tensors (cow ∷ []) (0 ∷ 1 ∷ [])
      (0 ∷ 2 ∷ []) 3 (omega arith) (omega arith) (omega arith) cow-Copies cow-Replaced
      (omega arith, (omega arith, tt)) (omega arith, (omega arith, tt)) refl (omega arith)

-- Adds to each query the number of keys.
abbrev attend : List ℕ → List ℕ → List ℕ → (ℕ → ℕ → Bool) → List ℕ
attend qs k v mask = map (λ x. x + length k) qs

abbrev batch : List Segment
batch =
    record { num_q = 2; len = 3; table = 0 ∷ 1 ∷ [] }
    ∷ record { num_q = 1; len = 1; table = 2 ∷ 0 ∷ [] }
    ∷ []

paged_attention_reference_example :
    paged_attention_reference numbers attend 2
      (λ slot. slot)
      (λ slot. slot)
      (1 ∷ 2 ∷ 3 ∷ [])
      ((0 ∷ 1 ∷ []) ∷ (2 ∷ 0 ∷ []) ∷ [])
      (0 ∷ 2 ∷ 3 ∷ [])
      (3 ∷ 1 ∷ [])
      (0 ∷ 0 ∷ 0 ∷ [])
    ≡ ok (each_alone numbers attend 2 (λ slot. slot) (λ slot. slot) (1 ∷ 2 ∷ 3 ∷ []) 0 batch)
paged_attention_reference_example =
    paged_attention_reference_lem numbers attend 2 (λ slot. slot) (λ slot. slot) (1 ∷ 2 ∷ 3 ∷ [])
      (λ qs k v mask. length-map (λ x. x + length k) qs) (0 ∷ 2 ∷ 3 ∷ []) (3 ∷ 1 ∷ [])
      ((0 ∷ 1 ∷ []) ∷ (2 ∷ 0 ∷ []) ∷ []) batch (0 ∷ 0 ∷ 0 ∷ [])
      (refl, refl, refl, refl, (refl, refl, refl, refl, tt)) refl refl refl

-- Another sequence, that shares the first block.
abbrev beside : Sequence
beside = record decoding { block_table = 0 ∷ 3 ∷ [] }

apart_at : (i b : ℕ) → 1 ≤ i → get_elem? (0 ∷ 1 ∷ []) i ≡ some b → count b (0 ∷ 3 ∷ []) ≡ 0
apart_at zero b le at_b = absurd (omega arith)
apart_at (suc zero) b le at_b = ground (arith, at_b)
apart_at (suc (suc i)) b le at_b = cc

write_cache-Unseen_example :
    (slots : List ℕ) × (slot_mapping pool2 decoding 2 2 ≡ ok slots)
    × Unseen numbers
        (λ t s. t s)
        pool2
        (numbers-Laws 4)
        tensors
        (λ slot. slot)
        (λ slot. slot + 10)
        0
        beside
        3
        (write_cache numbers tensors 0 (7 ∷ 8 ∷ []) (9 ∷ 10 ∷ []) slots)
write_cache-Unseen_example =
    write_cache-Unseen numbers (λ t s. t s) pool2 (numbers-Laws 4) tensors (λ slot. slot)
      (λ slot. slot + 10) 0 decoding beside 2 3 (7 ∷ 8 ∷ []) (9 ∷ 10 ∷ []) (omega arith)
      (omega arith) (omega arith) refl (λ b. ground arith) (omega arith, (omega arith, tt))
      (omega arith, (omega arith, tt)) apart_at refl refl
