-- ===== src/Engine/Finish.antt =====
-- pagedllm/engine.py: the loop of `generate` ends.
use paged_llm.Base.{
  ℕ, zero, suc, ◌+◌, ◌-◌, ◌*◌, ◌<◌, ◌≤◌, ◌≡◌, inl, inr, refl, ap, subst, ◌∙◌, List, [], ◌∷◌, length,
  List-cases, Bool-cases, Option, mul_mono, Result, ok, arith,
}
use paged_llm.Config.{EngineConfig}
use paged_llm.BlockManager.Conservation.{conservation}
use paged_llm.Scheduler.{Scheduler, num_unfinished, has_unfinished}
use paged_llm.Scheduler.Invariant.{IsWell, tables}
use paged_llm.Scheduler.Order.{line}
use paged_llm.Runner.{Backend}
use paged_llm.Runner.Tokens.{OneEach}
use paged_llm.Engine.{Engine, run_steps}
use paged_llm.Scheduler.Preempt.{SameSetup, SameSetup-refl, SameSetup-trans}
use paged_llm.Engine.Carried.{Carried, Carried-refl, Carried-trans}
use paged_llm.Engine.Loop.{nothing_left, run_steps-step}
use paged_llm.Engine.Advance.{
  Ready, Ready-same, Nearer, progress, in_line_bounds, unfinished-line, step-Advances,
}

-- More than the progress of any request.
abbrev pub span : Scheduler → ℕ
span s = 2 * s.config.max_model_len

-- The steps that are left at most: `span` for each request, less the progress of the first.
abbrev work_of : Scheduler → List ℕ → ℕ
work_of s [] = 0
work_of s (f ∷ rest) = num_unfinished s * span s + (span s - progress s f)

abbrev work : Scheduler → ℕ
work s = work_of s (line s)

work-le : (s : Scheduler) (l : List ℕ) → work_of s l ≤ num_unfinished s * span s + span s
work-le s [] = omega arith
work-le s (f ∷ rest) = omega arith

one_less : (u u' k p w : ℕ) → u' < u → p < k → w ≤ u' * k + k → w < u * k + (k - p)
one_less u u' k p w less below le =
    let up : suc u' * k ≤ u * k = mul_mono (suc u') u k less in
    let split : suc u' * k ≡ u' * k + k = grind arith in omega arith

further : (u u' k p p' : ℕ) → u' ≤ u → p < k → p < p' → u' * k + (k - p') < u * k + (k - p)
further u u' k p p' le below up = omega (arith, mul_mono u' u k le)

work_falls :
    (s s' : Scheduler) (f : ℕ) (rest : List ℕ)
    → s'.config ≡ s.config
    → progress s f < span s
    → Nearer s s' f
    → work s' < work_of s (f ∷ rest)
work_falls s s' f rest config below (inl less) =
    let same : span s' ≡ span s = ap (λ (c : EngineConfig). 2 * c.max_model_len) config in
    one_less (num_unfinished s) (num_unfinished s') (span s) (progress s f) (work s') less below
      (subst (λ k. work s' ≤ num_unfinished s' * k + k) same (work-le s' (line s')))
work_falls s s' f rest config below (inr (rest', in_line, fewer, up)) =
    let same : span s' ≡ span s = ap (λ (c : EngineConfig). 2 * c.max_model_len) config in
    rw (in_line, same)
      (further (num_unfinished s) (num_unfinished s') (span s) (progress s f) (progress s' f) fewer
        below up)

-- The scheduler has nothing left, and all its blocks are free.
pub record IsDone (s : Scheduler) : Type 0 where
  pub no_waiting : s.waiting ≡ []
  pub no_running : s.running ≡ []
  pub all_free : length s.bm.free ≡ s.bm.num_blocks

IsDone-of_empty : (s : Scheduler) → IsWell s [] → s.waiting ≡ [] → s.running ≡ [] → IsDone s
IsDone-of_empty s w no_waiting no_running =
    let none_held : length (tables s.seqs s.running) ≡ 0 =
      ap (λ r. length (tables s.seqs r)) no_running in
    record {
      no_waiting = no_waiting;
      no_running = no_running;
      all_free = omega (arith, conservation s.bm (tables s.seqs s.running) w.valid, none_held);
    }

module _ {W : Type 0} (hash : Option ℕ → List ℕ → ℕ) (backend : Backend W)
    (one : OneEach backend) where
  abbrev pub Completes : Engine W → Result (Engine W) → Type 0
  Completes e r =
      (e' : Engine W) × (r ≡ ok e')
      × IsDone e'.scheduler
      × (e'.requests ≡ e.requests)
      × Carried e.scheduler e'.scheduler
      × (e'.next_id ≡ e.next_id)
      × IsWell e'.scheduler []
      × SameSetup e.scheduler e'.scheduler

  completes :
      (fuel : ℕ) (e : Engine W)
      → IsWell e.scheduler []
      → Ready e.scheduler
      → work e.scheduler < fuel
      → Completes e (run_steps hash backend fuel e)
  unfolding run_steps
  completes zero e w ready enough = absurd (omega arith)
  completes (suc fuel) e w ready enough = elim (Bool-cases (has_unfinished e.scheduler)) [
    | inr finished ↦
        let (no_waiting, no_running) = nothing_left hash backend one e.scheduler finished in
        (
          e,
          ground (arith, finished),
          IsDone-of_empty e.scheduler w no_waiting no_running,
          refl,
          Carried-refl e.scheduler,
          refl,
          w,
          SameSetup-refl e.scheduler,
        )
    | inl more ↦ elim (List-cases (line e.scheduler)) [
      | inl none_left ↦ absurd (ground (arith, unfinished-line e.scheduler, ap length none_left))
      | inr (f, rest, in_line) ↦
          let (outs, e1, eq, w1, same, requests, nearer, carried, next) =
            step-Advances hash backend one e f rest w ready in_line in
          let bounds = in_line_bounds e.scheduler f rest w in_line in
          let falls : work e1.scheduler < work_of e.scheduler (f ∷ rest) =
            work_falls e.scheduler e1.scheduler f rest same.same_config (omega (arith, bounds))
              nearer in
          let (e2, eq2, done, requests2, carried2, next2, w2, same2) =
            completes fuel e1 w1 (Ready-same same ready)
              (omega (arith, falls, ap (work_of e.scheduler) in_line)) in
          (
            e2,
            run_steps-step hash backend one fuel e e1 outs more eq ∙ eq2,
            done,
            requests2 ∙ requests,
            Carried-trans carried carried2,
            next2 ∙ next,
            w2,
            SameSetup-trans same same2,
          )
    ]
  ]

  -- The loop of `generate` ends. If the sampler returns one token for each of its parameters, the
  -- scheduler is well-formed with nothing scheduled, and the configuration lets any request run,
  -- then with more fuel than twice the model's length for each unfinished request and once more,
  -- the loop ends without raising, nothing runs or waits, every block is free, every request that
  -- was in line is finished with its prompt as it was, and the requests, the setup and the next id
  -- are the same.
  pub run_steps-Completes :
      (fuel : ℕ) (e : Engine W)
      → IsWell e.scheduler []
      → Ready e.scheduler
      → (num_unfinished e.scheduler + 1) * span e.scheduler < fuel
      → Completes e (run_steps hash backend fuel e)
  run_steps-Completes fuel e w ready enough =
      completes fuel e w ready (grind (arith, work-le e.scheduler (line e.scheduler)))
