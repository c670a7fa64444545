-- ===== src/Engine/Generate.antt =====
-- pagedllm/engine.py: `generate` serves all its prompts.
use paged_llm.Base.{
  ℕ, ◌+◌, ◌*◌, ◌<◌, ◌≤◌, ◌≡◌, inl, inr, refl, ap, subst, ◌∙◌, List, [], ◌∷◌, ◌++◌, map, length,
  length-append, count, count-append, true, Option, Result, ok, arith,
}
use paged_llm.Sequence.{is_finished}
use paged_llm.Config.{EngineConfig}
use paged_llm.BlockManager.{range_from}
use paged_llm.BlockManager.Sequences.{count-range_from, length-range_from}
use paged_llm.Scheduler.{num_unfinished}
use paged_llm.Scheduler.Invariant.{IsWell}
use paged_llm.Scheduler.Order.{line}
use paged_llm.Runner.{Backend}
use paged_llm.Runner.Tokens.{OneEach}
use paged_llm.Engine.{Engine, RequestOutput, SamplingArgument, zip_params, generate}
use paged_llm.Engine.Carried.{Carried}
use paged_llm.Engine.Advance.{Ready, Ready-same, unfinished-line}
use paged_llm.Engine.Finish.{IsDone, span, run_steps-Completes}
use paged_llm.Engine.Adding.{Fresh, Added, Servable, add_requests_lem}
use paged_llm.Engine.Collect.{collect_lem}

map-cong : {f g : ℕ → List ℕ} → ((j : ℕ) → f j ≡ g j) → (ids : List ℕ) → map f ids ≡ map g ids
map-cong same [] = refl
map-cong {f} {g} same (i ∷ ids) =
    ap (λ p. p ∷ map f ids) (same i) ∙ ap (◌∷◌ (g i)) (map-cong same ids)

module _ {W : Type 0} where
  Ready-Added :
      {e e' : Engine W} {ids : List ℕ} → Added e e' ids → Ready e.scheduler → Ready e'.scheduler
  Ready-Added added ready = record {
    budget = rw added.same_config ready.budget;
    seqs = rw added.same_config ready.seqs;
    chunks = rw added.same_config ready.chunks;
    room = rw (added.same_config, added.same_bm) ready.room;
  }

  -- A request of which none is in line at the end is finished.
  finished_after :
      {e e1 : Engine W} {ids : List ℕ} (e2 : Engine W)
      → Added e e1 ids
      → Carried e1.scheduler e2.scheduler
      → line e2.scheduler ≡ []
      → (j : ℕ) → 0 < count j ids
      → is_finished (e2.scheduler.seqs j) ≡ true
  finished_after {e} {ids = ids} e2 added carried empty j here =
      let there : 0 < count j (line e.scheduler ++ ids) =
        omega (arith, count-append j (line e.scheduler) ids) in
      elim (carried.ends j (omega (arith, ap (count j) added.in_line, there))) [
        | inl still ↦ absurd (omega (arith, ap (count j) empty))
        | inr finished ↦ finished
      ]

  -- The ids that were given are new.
  apart_of :
      (e : Engine W) (n : ℕ)
      → Fresh e
      → (j : ℕ) → 0 < count j (range_from e.next_id n)
      → count j e.requests ≡ 0
  apart_of e n fresh j h = ground (arith, fresh j, count-range_from j e.next_id n)

  -- An engine with nothing in line and the same requests.
  still_fresh :
      (e e' : Engine W) (n : ℕ)
      → Fresh e
      → line e'.scheduler ≡ []
      → e'.next_id ≡ e.next_id + n
      → Fresh (record e' { requests = e.requests })
  still_fresh e e' n fresh empty next j h =
      let later : e'.next_id ≤ j = h in omega (arith, fresh j (omega arith), ap (count j) empty)

module _ {W : Type 0} (hash : Option ℕ → List ℕ → ℕ) (backend : Backend W)
    (one : OneEach backend) where
  -- One output for each prompt, in their order, and an engine that is idle and ready for more.
  abbrev pub Serves : Engine W → List (List ℕ × ℕ) → Result (List RequestOutput × Engine W) → Type 0
  Serves e pairs r =
      (outs : List RequestOutput) × (e' : Engine W) × (r ≡ ok (outs, e'))
      × (map (λ (o : RequestOutput). o.prompt_token_ids) outs ≡ map (λ p. p.0) pairs)
      × (map (λ (o : RequestOutput). o.seq_id) outs ≡ range_from e.next_id (length pairs))
      × IsDone e'.scheduler
      × (e'.requests ≡ e.requests)
      × IsWell e'.scheduler []
      × Ready e'.scheduler
      × Fresh e'

  -- `generate` serves all its prompts. If the sampler returns one token for each of its parameters,
  -- the scheduler is well-formed with nothing scheduled, the configuration lets any request run, no
  -- request has an id that the counter has yet to give, and each prompt that is paired with
  -- sampling parameters is not empty and shorter than the model's length, then with more fuel than
  -- twice the model's length for each request, old or new, and once more, `generate` returns one
  -- output for each pair, in their order, with the prompt of the pair and the next ids; then
  -- nothing runs or waits, every block is free, the requests are those of before, and the engine
  -- meets the conditions on the scheduler, the configuration and the ids again.
  pub generate-Serves :
      (fuel : ℕ) (e : Engine W) (prompts : List (List ℕ)) (argument : SamplingArgument)
      → IsWell e.scheduler []
      → Ready e.scheduler
      → Fresh e
      → Servable e.scheduler.config.max_model_len (zip_params prompts argument)
      → (num_unfinished e.scheduler + length (zip_params prompts argument) + 1) * span e.scheduler
        < fuel
      → Serves e (zip_params prompts argument) (generate hash backend fuel e prompts argument)
  unfolding generate
  generate-Serves fuel e prompts argument w ready fresh fit enough =
      let pairs = zip_params prompts argument in
      let (ids, e1, eq1, added, ids_eq, asked) =
        add_requests_lem e pairs w fresh ready.chunks fit in
      let ready1 = Ready-Added added ready in
      let count_ids : length ids ≡ length pairs =
        ap length ids_eq ∙ length-range_from e.next_id (length pairs) in
      let more : num_unfinished e1.scheduler ≡ num_unfinished e.scheduler + length pairs = omega (
        arith,
        unfinished-line e1.scheduler,
        unfinished-line e.scheduler,
        ap length added.in_line,
        length-append (line e.scheduler) ids,
        count_ids,
      ) in
      let same_span : span e1.scheduler ≡ span e.scheduler =
        ap (λ (c : EngineConfig). 2 * c.max_model_len) added.same_config in
      let (e2, eq2, done, requests, carried, next, w2, same2) =
        run_steps-Completes hash backend one fuel e1 added.well ready1
          (rw (more, same_span) enough) in
      let empty : line e2.scheduler ≡ [] =
        ap (λ r. r ++ e2.scheduler.waiting) done.no_running ∙ done.no_waiting in
      let apart : (j : ℕ) → 0 < count j ids → count j e.requests ≡ 0 =
        λ j h. apart_of e (length pairs) fresh j (subst (λ l. 0 < count j l) ids_eq h) in
      let (outs, eq3, ids3, prompts3) =
        collect_lem e2 e.requests ids (requests ∙ added.requests) apart
          (finished_after e2 added carried empty) in
      (
        outs,
        record e2 { requests = e.requests },
        rw (eq1, eq2, eq3),
        prompts3 ∙ map-cong carried.keeps.prompts ids ∙ asked,
        ids3 ∙ ids_eq,
        done,
        refl,
        w2,
        Ready-same same2 ready1,
        still_fresh e e2 (length ids) fresh empty (next ∙ added.next),
      )
