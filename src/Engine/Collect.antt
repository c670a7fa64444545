-- ===== src/Engine/Collect.antt =====
-- pagedllm/engine.py: the outputs that `generate` returns.
use paged_llm.Base.{
  ℕ, ◌<◌, ◌≡◌, refl, ap, ◌∙◌, List, [], ◌∷◌, ◌++◌, append-nil, map, count, count-append, true,
  erase, erase_middle, remove_present, eq→==, ok, key_error, arith,
}
use paged_llm.Sequence.{SequenceStatus, status_finished, is_finished, output_token_ids}
use paged_llm.Engine.{Engine, RequestOutput, FinishReason, reason_of, to_output, collect}
use paged_llm.Engine.Adding.{prompt_of}

finished_reason :
    (status : SequenceStatus)
    → status_finished status ≡ true
    → (reason : FinishReason) × (reason_of status ≡ ok reason)
finished_reason SequenceStatus.finished_stopped h = (FinishReason.stop, refl)
finished_reason SequenceStatus.finished_length h = (FinishReason.by_length, refl)
finished_reason SequenceStatus.finished_aborted h = (FinishReason.by_abort, refl)
finished_reason SequenceStatus.waiting h = cc
finished_reason SequenceStatus.running h = cc

module _ {W : Type 0} where
  -- The output, once the reason is known.
  abbrev output_of : Engine W → ℕ → FinishReason → RequestOutput
  output_of e id reason = record {
    seq_id = id;
    prompt_token_ids = prompt_of e id;
    token_ids = output_token_ids (e.scheduler.seqs id);
    finish_reason = reason;
    num_cached_tokens = (e.scheduler.seqs id).num_cached_tokens;
    num_preemptions = (e.scheduler.seqs id).num_preemptions;
  }

  to_output_lem :
      (e : Engine W) (id : ℕ)
      → is_finished (e.scheduler.seqs id) ≡ true
      → (out : RequestOutput) × (to_output e id ≡ ok out)
        × (out.seq_id ≡ id)
        × (out.prompt_token_ids ≡ prompt_of e id)
  unfolding to_output
  to_output_lem e id finished =
      let (reason, eq) = finished_reason (e.scheduler.seqs id).status finished in
      (output_of e id reason, rw eq, refl, refl)

  abbrev Collected : Engine W → List ℕ → List ℕ → Type 0
  Collected e base ids =
      (outs : List RequestOutput) × (collect e ids ≡ ok (outs, record e { requests = base }))
      × (map (λ (o : RequestOutput). o.seq_id) outs ≡ ids)
      × (map (λ (o : RequestOutput). o.prompt_token_ids) outs ≡ map (prompt_of e) ids)

  -- The requests to collect are the last ones and finished.
  pub collect_lem :
      (e : Engine W) (base ids : List ℕ)
      → e.requests ≡ base ++ ids
      → ((j : ℕ) → 0 < count j ids → count j base ≡ 0)
      → ((j : ℕ) → 0 < count j ids → is_finished (e.scheduler.seqs j) ≡ true)
      → Collected e base ids
  unfolding collect
  collect_lem e base [] known apart finished =
      let same : e.requests ≡ base = known ∙ append-nil base in
      ([], ap (λ r. ok ([], record e { requests = r })) same, refl, refl)
  collect_lem e base (id ∷ ids) known apart finished =
      let here : 0 < count id (id ∷ ids) = ground (arith, eq→== id id refl) in
      let there : 0 < count id e.requests =
        omega (arith, ap (count id) known, count-append id base (id ∷ ids), here) in
      let e1 = record e { requests = base ++ ids } in
      let popped =
        remove_present key_error id e.requests there
        ∙ ap ok (ap (erase id) known ∙ erase_middle id base ids (apart id here)) in
      let (out, made, same_id, same_prompt) = to_output_lem e1 id (finished id here) in
      let (outs, eq, ids_eq, prompts) =
        collect_lem e1 base ids refl (λ j h. apart j (omega arith))
          (λ j h. finished j (omega arith)) in
      (
        out ∷ outs,
        rw (popped, made, eq),
        ap (λ i. i ∷ map (λ (o : RequestOutput). o.seq_id) outs) same_id ∙ ap (◌∷◌ id) ids_eq,
        ap (λ p. p ∷ map (λ (o : RequestOutput). o.prompt_token_ids) outs) same_prompt
            ∙ ap (◌∷◌ (prompt_of e id)) prompts,
      )
