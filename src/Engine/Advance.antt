-- ===== src/Engine/Advance.antt =====
-- pagedllm/engine.py: a step brings the first request in line nearer to its end.
use paged_llm.Base.{
  ℕ, ◌+◌, ◌*◌, ◌<◌, ◌≤◌, ◌≡◌, ◌⊎◌, inl, inr, refl, sym, ap, ◌∙◌, List, [], ◌∷◌, ◌++◌, length,
  length-append, true, false, Bool-cases, count, count-append, eq→==, Option, map, ◌==◌, Result, ok,
  arith,
}
use paged_llm.Sequence.{Sequence, num_tokens}
use paged_llm.Scheduler.{Scheduler, SchedulerOutput, ScheduledSequence, is_empty, num_unfinished}
use paged_llm.Scheduler.Invariant.{IsWell, planned}
use paged_llm.Scheduler.Preempt.{SameSetup, SameSetup-trans}
use paged_llm.Scheduler.Order.{line}
use paged_llm.Scheduler.Plan.{schedule_lem, not-Stuck, Scheduled, first_runs}
use paged_llm.Scheduler.Advance.{Advanced}
use paged_llm.Scheduler.Progress.{update_lem}
use paged_llm.Runner.{Backend, run}
use paged_llm.Runner.Tokens.{OneEach, run_total}
use paged_llm.Engine.Carried.{Carried, Carried-step}
use paged_llm.Engine.{Engine, StepOutput, add_step, step_output, step}

-- The configuration lets any one request run: prefills are cut into chunks, and the pool has a block
-- more than the longest sequence takes.
pub record Ready (s : Scheduler) : Type 0 where
  pub budget : 0 < s.config.max_num_batched_tokens
  pub seqs : 0 < s.config.max_num_seqs
  pub chunks : s.config.enable_chunked_prefill ≡ true
  pub room : s.config.max_model_len + s.bm.block_size ≤ s.bm.num_blocks * s.bm.block_size

pub Ready-same : {s s' : Scheduler} → SameSetup s s' → Ready s → Ready s'
Ready-same same r = record {
  budget = rw same.same_config r.budget;
  seqs = rw same.same_config r.seqs;
  chunks = rw same.same_config r.chunks;
  room = rw (same.same_config, same.same_shape.same_size, same.same_shape.same_blocks) r.room;
}

-- The tokens of a sequence, counted once as known and once as computed.
abbrev pub progress : Scheduler → ℕ → ℕ
progress s f = (s.seqs f).num_computed_tokens + num_tokens (s.seqs f)

-- One request less, or the first one is further.
abbrev pub Nearer : Scheduler → Scheduler → ℕ → Type 0
Nearer s s' f =
    (num_unfinished s' < num_unfinished s)
    ⊎ ((rest : List ℕ) × (line s' ≡ f ∷ rest)
        × (num_unfinished s' ≤ num_unfinished s)
        × (progress s f < progress s' f))

-- A request in line is shorter than the model's length.
pub in_line_bounds :
    (s : Scheduler) (f : ℕ) (rest : List ℕ)
    → IsWell s []
    → line s ≡ f ∷ rest
    → (num_tokens (s.seqs f) < s.config.max_model_len)
      × ((s.seqs f).num_computed_tokens < num_tokens (s.seqs f))
in_line_bounds s f rest w in_line =
    let here : 0 < count f s.running + count f s.waiting =
      ground (arith, count-append f s.running s.waiting, ap (count f) in_line, eq→== f f refl) in
    elim (Bool-cases (count f s.running == 0)) [
      | inr runs ↦ let ok_f = w.running_ok f (ground arith) in (ok_f.short, ok_f.unfinished)
      | inl waits ↦
          let ok_f = w.waiting_ok f (ground arith) in
          (ok_f.short, omega (arith, ok_f.no_computed, ok_f.nonempty))
    ]

some_planned : (f : ℕ) (items : List ScheduledSequence) → 0 < planned f items → 0 < length items
some_planned f [] h = absurd (omega arith)
some_planned f (i ∷ is) h = omega arith

pub unfinished-line : (s : Scheduler) → num_unfinished s ≡ length (line s)
unfinished-line s = omega (arith, length-append s.running s.waiting)

-- Of the plan and the update of a step.
nearer_lem :
    (s s1 s2 s3 : Scheduler) (out : SchedulerOutput) (f : ℕ) (gs : List ℕ)
    → Scheduled s s1 out
    → s2 ≡ record s1 { bm = s2.bm }
    → Advanced out.scheduled s2 s3
    → s1.running ≡ f ∷ gs
    → 0 < planned f out.scheduled
    → (s.seqs f).num_computed_tokens ≤ (s1.seqs f).num_computed_tokens
    → Nearer s s3 f
nearer_lem s s1 s2 s3 out f gs plan same advanced run planned_f kept =
    let running : s2.running ≡ s1.running = ap (λ (x : Scheduler). x.running) same in
    let waiting : s2.waiting ≡ s1.waiting = ap (λ (x : Scheduler). x.waiting) same in
    let seq : s2.seqs f ≡ s1.seqs f = ap (λ (x : Scheduler). x.seqs f) same in
    let computed = ap (λ (x : Sequence). x.num_computed_tokens) seq in
    let size = ap (λ (x : Sequence). num_tokens x) seq in
    let before : num_unfinished s1 ≡ num_unfinished s =
      unfinished-line s1 ∙ ap length plan.same_line ∙ sym (unfinished-line s) in
    let wait : length s3.waiting ≡ length s1.waiting = ap length (advanced.waiting ∙ waiting) in
    let ran : length s2.running ≡ length s1.running = ap length running in
    elim (advanced.first f gs (running ∙ run)) [
      | inr less ↦ inl (omega (arith, before, wait, ran))
      | inl (rest, run3, computed3, size3) ↦ inr (
        rest ++ s3.waiting,
        ap (λ q. q ++ s3.waiting) run3,
        omega (arith, before, wait, ran, advanced.fewer),
        omega (arith, computed, size, ap length (plan.tokens f)),
      )
    ]

module _ {W : Type 0} (hash : Option ℕ → List ℕ → ℕ) (backend : Backend W)
    (one : OneEach backend) where
  abbrev pub Advances : Engine W → ℕ → Result (List StepOutput × Engine W) → Type 0
  Advances e f r =
      (outs : List StepOutput) × (e' : Engine W) × (r ≡ ok (outs, e'))
      × IsWell e'.scheduler []
      × SameSetup e.scheduler e'.scheduler
      × (e'.requests ≡ e.requests)
      × Nearer e.scheduler e'.scheduler f
      × Carried e.scheduler e'.scheduler
      × (e'.next_id ≡ e.next_id)

  -- If the sampler returns one token for each of its parameters, the scheduler is well-formed with
  -- nothing scheduled, and the configuration lets any request run, then `step` does not raise and
  -- keeps the scheduler well-formed, of the same setup and with the same requests, and after it
  -- fewer requests are unfinished, or no more are and the first in line is still first and has more
  -- tokens computed or known. The prompts are as they were, no request joins the line, one leaves
  -- it only when it is finished, and the next id is the same.
  pub step-Advances :
      (e : Engine W) (f : ℕ) (rest : List ℕ)
      → IsWell e.scheduler []
      → Ready e.scheduler
      → line e.scheduler ≡ f ∷ rest
      → Advances e f (step hash backend e)
  unfolding step
  step-Advances e f rest w ready in_line =
      let s = e.scheduler in
      let (s1, out, e1, plan) = schedule_lem hash s w in
      let (served, gs, run) = first_runs s s1 out f rest w plan in_line (
        not-Stuck s f ready.budget ready.seqs ready.chunks
          (omega (arith, (in_line_bounds s f rest w in_line).0, ready.room))) in
      let some_items : 0 < length out.scheduled = some_planned f out.scheduled served.0 in
      let running : is_empty out ≡ false = ground (arith, some_items) in
      let (sampled, world, s2, e2, w2, setup2, tokens, _, same) =
        run_total backend one e.world s1 out plan.well some_items in
      let (s3, finished, e3, w3, advanced, done) = update_lem hash sampled s2 out w2 tokens in
      (
        map (step_output sampled finished) out.scheduled,
        record e { scheduler = s3; world = world; stats = add_step e.stats out },
        rw (e1, running, e2, e3),
        w3,
        SameSetup-trans plan.setup (SameSetup-trans setup2 advanced.setup),
        refl,
        nearer_lem s s1 s2 s3 out f gs plan same advanced run served.0 served.1,
        Carried-step s s1 s2 s3 out plan same advanced,
        refl,
      )
