-- ===== src/Llama/Backend.antt =====
-- pagedllm/attention/reference.py: the reference kernel keeps what the model asks of a backend.
use paged_llm.Base.{ℕ, ◌≡◌, refl, List, Bool, length, Result}
use paged_llm.KvCache.{Tensors}
use paged_llm.Attention.Reference.{paged_attention_reference}
use paged_llm.Attention.Segments.{paged_attention_reference_lem}
use paged_llm.Llama.{Floats, Llama}
use paged_llm.Llama.Cached.{IsPagedAttention}

module _ {F Matrix T : Type 0} (o : Floats F Matrix)
    (attend : List (List (List F))
      → List (List (List F))
      → List (List (List F))
      → (ℕ → ℕ → Bool)
      → List (List (List F)))
    (keeps : (q k v : List (List (List F))) (mask : ℕ → ℕ → Bool)
      → length (attend q k v mask) ≡ length q)
    (m : Llama F Matrix) (ops : Tensors T (List (List F))) (bs : ℕ) where
  -- `attend` stands for the attention at the scale of the model; the new tensor has the queries' size.
  abbrev pub reference_backend :
      List (List (List F))
      → T
      → T
      → List (List ℕ)
      → List ℕ
      → List ℕ
      → ℕ
      → F
      → Result (List (List (List F)))
  reference_backend q kc vc tables cu lens max_q scale =
      paged_attention_reference ops attend bs kc vc q tables cu lens q

  pub reference_backend-IsPagedAttention :
      IsPagedAttention o attend keeps m ops bs reference_backend
  reference_backend-IsPagedAttention q kc vc tables cu lens max_q gs batch some_lens total =
      paged_attention_reference_lem ops attend bs kc vc q keeps cu lens tables gs q batch some_lens
        total refl
