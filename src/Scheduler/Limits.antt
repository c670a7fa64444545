-- ===== src/Scheduler/Limits.antt =====
-- pagedllm/scheduler.py: the limit of tokens of requests that share a SamplingParams object.
use paged_llm.Base.{
  ℕ, ◌+◌, ◌<◌, ◌≤◌, ◌≡◌, inl, inr, refl, sym, subst, not, ◌&&◌, if◌then◌else◌, ltb, leb, ◌==◌, [],
  ◌∷◌, ◌++◌, ok, arith, Bool-cases, eq→==,
}
use paged_llm.Sequence.{Sequence, SequenceStatus, num_prompt_tokens}
use paged_llm.Scheduler.{Scheduler, write, clamp_params, add}
use paged_llm.Scheduler.Requests.{TooLong, max_tokens_of}

clamp_params_lem :
    (s : Scheduler) (seq : Sequence)
    → num_prompt_tokens seq < s.config.max_model_len
    → num_prompt_tokens seq + (clamp_params s seq seq.sampling_params).max_tokens
      ≤ s.config.max_model_len
unfolding clamp_params
clamp_params_lem s seq short = ground (arith, eq→== seq.sampling_params seq.sampling_params refl)

-- A request that is not too long is added, and the limit of every request that refers to the same
-- SamplingParams object is then such that the prompt of the added one with that limit is within the
-- model's length.
pub add-shared :
    (s : Scheduler) (id other : ℕ)
    → ¬ TooLong s id
    → (s.seqs other).sampling_params ≡ (s.seqs id).sampling_params
    → (s' : Scheduler) × (add s id ≡ ok s')
      × (num_prompt_tokens (s.seqs id) + max_tokens_of s' other ≤ s.config.max_model_len)
unfolding add
add-shared s id other fits shared =
    let seq = s.seqs id in
    elim (Bool-cases (leb s.config.max_model_len (num_prompt_tokens seq))) [
      | inl long ↦ absurd (fits (inl (ground arith)))
      | inr short ↦
          elim (Bool-cases (
            not s.config.enable_chunked_prefill
            && ltb s.config.max_num_batched_tokens (num_prompt_tokens seq))) [
              | inl over ↦ absurd (fits (inr (ground arith, ground arith)))
              | inr within ↦
                  let clamped = clamp_params_lem s seq (ground arith) in
                  let same : (if id == other
                        then record seq { status = SequenceStatus.waiting }
                        else s.seqs other).sampling_params
                      ≡ seq.sampling_params =
                    ground (arith, shared) in
                  (
                    record s {
                      params = clamp_params s seq;
                      seqs = write s.seqs id (record seq { status = SequenceStatus.waiting });
                      waiting = s.waiting ++ id ∷ [];
                    },
                    rw (short, within),
                    subst
                        (λ r.
                          num_prompt_tokens seq + (clamp_params s seq r).max_tokens
                          ≤ s.config.max_model_len)
                        (sym same) clamped,
                  )
            ]
    ]
