-- ===== src/Attention/Reference.antt =====
-- pagedllm/attention/reference.py: `paged_attention_reference`.
-- The scores, the softmax and the weighted sum of one sequence are a parameter `attend`, a function of
-- its queries, its keys and values, and the mask; a query is what `q` holds of one token.
use paged_llm.Base.{
  ℕ, zero, suc, ◌+◌, ◌-◌, List, ◌++◌, Bool, ltb, length, take, drop, get_elem?, Result, ok,
  index_error, or_raise, ◌>>=◌,
}
use paged_llm.BlockManager.PrefixCache.{slice}
use paged_llm.KvCache.{Tensors, gather}

-- Key `j` is hidden from query `i`: it is behind the position `len - num_q + i`.
abbrev pub masked : ℕ → ℕ → ℕ → ℕ → Bool
masked len num_q i j = ltb (len + i) (j + num_q)

-- `out[a:b] = o`
abbrev pub splice {ℓ} : {A : Type ℓ} → ℕ → ℕ → List A → List A → List A
splice a b o out = take a out ++ (o ++ drop b out)

module _ {T Row Query : Type 0} (ops : Tensors T Row)
    (attend : List Query → List Row → List Row → (ℕ → ℕ → Bool) → List Query) where
  -- The output of one sequence.
  abbrev pub attend_one : ℕ → T → T → List Query → ℕ → ℕ → List ℕ → List Query
  attend_one bs k_cache v_cache qs num_q len table =
      attend qs (gather ops bs k_cache table len) (gather ops bs v_cache table len)
        (masked len num_q)

  -- The loop over the sequences: `n` of them from the `s`-th on.
  unfoldable pub attend_from :
      ℕ
      → T
      → T
      → List Query
      → List (List ℕ)
      → List ℕ
      → List ℕ
      → ℕ
      → ℕ
      → List Query
      → Result (List Query)
  attend_from bs k_cache v_cache q tables cu lens zero s out = ok out
  attend_from bs k_cache v_cache q tables cu lens (suc n) s out = do
    q_start ← or_raise (get_elem? cu s) index_error
    q_end ← or_raise (get_elem? cu (s + 1)) index_error
    len ← or_raise (get_elem? lens s) index_error
    table ← or_raise (get_elem? tables s) index_error
    let o = attend_one bs k_cache v_cache (slice q_start q_end q) (q_end - q_start) len table
    attend_from bs k_cache v_cache q tables cu lens n (s + 1) (splice q_start q_end o out)

  -- `empty` is what the new tensor holds, of the size of `q`.
  unfoldable pub paged_attention_reference :
      ℕ → T → T → List Query → List (List ℕ) → List ℕ → List ℕ → List Query → Result (List Query)
  unfolding attend_from
  paged_attention_reference bs k_cache v_cache q tables cu lens empty =
      attend_from bs k_cache v_cache q tables cu lens (length lens) 0 empty
