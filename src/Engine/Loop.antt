-- ===== src/Engine/Loop.antt =====
-- pagedllm/engine.py: a step of the engine, and the loop of `generate`.
use paged_llm.Base.{
  ℕ, zero, suc, ◌+◌, ◌<◌, ◌≤◌, ◌≡◌, ◌⊎◌, inl, inr, refl, List, [], true, false, Option, map, length,
  List-cases, Bool-cases, Result, ok, raise, out_of_fuel, arith, ◌∙◌, ap,
}
use paged_llm.Scheduler.{Scheduler, is_empty, has_unfinished}
use paged_llm.Scheduler.Invariant.{IsWell}
use paged_llm.Scheduler.Preempt.{SameSetup, SameSetup-trans}
use paged_llm.Scheduler.Plan.{schedule_total}
use paged_llm.Scheduler.Progress.{update_total}
use paged_llm.Runner.{Backend}
use paged_llm.Runner.Tokens.{OneEach, run_total}
use paged_llm.Engine.{Engine, EngineStats, StepOutput, add_step, step_output, step, run_steps}

-- The tokens that the statistics count.
abbrev pub counted : EngineStats → ℕ
counted st = st.num_prefill_tokens + st.num_decode_tokens

module _ {W : Type 0} (hash : Option ℕ → List ℕ → ℕ) (backend : Backend W)
    (one : OneEach backend) where
  -- An idle step counts nothing; any other is counted once, with at most the budget of tokens.
  abbrev pub Counted : Engine W → List StepOutput → Engine W → Type 0
  Counted e outs e' =
      ((outs ≡ []) × (e'.stats ≡ e.stats))
      ⊎ ((0 < length outs)
          × (e'.stats.num_steps ≡ e.stats.num_steps + 1)
          × (counted e'.stats ≤ counted e.stats + e.scheduler.config.max_num_batched_tokens))

  abbrev pub Stepped : Engine W → Result (List StepOutput × Engine W) → Type 0
  Stepped e r =
      (outs : List StepOutput) × (e' : Engine W) × (r ≡ ok (outs, e'))
      × IsWell e'.scheduler []
      × SameSetup e.scheduler e'.scheduler
      × (e'.requests ≡ e.requests)
      × Counted e outs e'

  -- If the sampler returns one token for each of its parameters, and the scheduler is well-formed
  -- with nothing scheduled, `step` does not raise, for any hash. The scheduler is again
  -- well-formed, with nothing scheduled and of the same setup, and the requests are the same.
  -- Either there is no output and the statistics do not change, or there is some, one more step is
  -- counted, and at most the budget of a step in tokens.
  pub step_total : (e : Engine W) → IsWell e.scheduler [] → Stepped e (step hash backend e)
  unfolding step
  step_total e w =
      let (s1, out, e1, w1, setup1, budget, sum) = schedule_total hash e.scheduler w in
      elim (List-cases out.scheduled) [
        | inl idle ↦ (
          [],
          record e { scheduler = s1 },
          rw (e1, idle),
          rw idle at w1,
          setup1,
          refl,
          inl (refl, refl),
        )
        | inr (item, items, busy) ↦
            let some_items : 0 < length out.scheduled = omega (arith, ap length busy) in
            let (sampled, world, s2, e2, w2, setup2, tokens, _, _) =
              run_total backend one e.world s1 out w1 some_items in
            let (s3, finished, e3, w3, setup3, done) = update_total hash sampled s2 out w2 tokens in
            let running : is_empty out ≡ false = ground (arith, busy) in
            (
              map (step_output sampled finished) out.scheduled,
              record e { scheduler = s3; world = world; stats = add_step e.stats out },
              rw (e1, running, e2, e3),
              w3,
              SameSetup-trans setup1 (SameSetup-trans setup2 setup3),
              refl,
              inr (rw busy (omega arith), refl, omega (arith, budget)),
            )
      ]

  -- The loop ended with nothing left to do, or its fuel ran out.
  abbrev pub Ended : Engine W → Result (Engine W) → Type 0
  Ended e r =
      (r ≡ raise out_of_fuel)
      ⊎ ((e' : Engine W) × (r ≡ ok e')
          × (e'.scheduler.waiting ≡ [])
          × (e'.scheduler.running ≡ [])
          × IsWell e'.scheduler []
          × (e'.requests ≡ e.requests))

  pub nothing_left :
      (s : Scheduler) → has_unfinished s ≡ false → (s.waiting ≡ []) × (s.running ≡ [])
  nothing_left s h = elim (List-cases s.waiting) [
    | inr (x, xs, e) ↦ absurd (ground (arith, ap length e))
    | inl e ↦ elim (List-cases s.running) [
      | inr (x, xs, e') ↦ absurd (ground (arith, ap length e'))
      | inl e' ↦ (e, e')
    ]
  ]

  pub run_steps-step :
      (fuel : ℕ) (e e' : Engine W) (outs : List StepOutput)
      → has_unfinished e.scheduler ≡ true
      → step hash backend e ≡ ok (outs, e')
      → run_steps hash backend (suc fuel) e ≡ run_steps hash backend fuel e'
  unfolding run_steps
  run_steps-step fuel e e' outs more eq = rw (run_steps, more, eq)

  -- If the sampler returns one token for each of its parameters, and the scheduler is well-formed
  -- with nothing scheduled, no step of the loop of `generate` raises, for any hash and any number
  -- of steps: either that number is too small for the loop to end, or it ends with both queues
  -- empty, a well-formed scheduler, and the same requests.
  pub run_steps_total :
      (fuel : ℕ) (e : Engine W) → IsWell e.scheduler [] → Ended e (run_steps hash backend fuel e)
  unfolding run_steps
  run_steps_total zero e w = inl refl
  run_steps_total (suc fuel) e w = elim (Bool-cases (has_unfinished e.scheduler)) [
    | inr done ↦
        let (no_waiting, no_running) = nothing_left e.scheduler done in
        inr (e, ground (arith, done), no_waiting, no_running, w, refl)
    | inl more ↦
        let (outs, e', eq, w', setup, same, _) = step_total e w in
        elim (run_steps_total fuel e' w') [
          | inl out ↦ inl (run_steps-step fuel e e' outs more eq ∙ out)
          | inr (e'', eq', no_waiting, no_running, w'', same') ↦ inr (
            e'',
            run_steps-step fuel e e' outs more eq ∙ eq',
            no_waiting,
            no_running,
            w'',
            same' ∙ same,
          )
        ]
  ]
