-- ===== src/Scheduler/Plan.antt =====
-- pagedllm/scheduler.py: `schedule` as a whole.
use paged_llm.Base.{
  ℕ, ◌+◌, ◌*◌, ◌<◌, ◌≤◌, ◌≡◌, ◌⊎◌, inl, inr, refl, sym, ap, subst, ◌∙◌, List, [], ◌∷◌, ◌++◌, true,
  false, ◌==◌, length, count, append-nil, eq→==, arith, Bool-cases, List-cases, Option, ok,
}
use paged_llm.Sequence.{num_tokens}
use paged_llm.Scheduler.{Scheduler, SchedulerOutput, ScheduledSequence, total_tokens, empty_output}
use paged_llm.Scheduler.Schedule.{Pass, run_running, schedule}
use paged_llm.Scheduler.Invariant.{planned, IsWell}
use paged_llm.Scheduler.Preempt.{SameSetup, SameSetup-trans}
use paged_llm.Scheduler.Order.{Keeps, Keeps-trans, line, Moved}
use paged_llm.Scheduler.Cramped.{Cramped}
use paged_llm.Scheduler.Visit.{PassOk, Later, Later-refl, Later-trans, Between, PassedOver, sum_new}
use paged_llm.Scheduler.Running.{visit, run_running_lem}
use paged_llm.Scheduler.Admission.{planned_absent}
use paged_llm.Scheduler.Joining.{Joined, NotAdmitted, HeadOutcome}
use paged_llm.Scheduler.Queue.{admit_lem}

-- Why the first request in line gets no tokens.
pub data Stuck (s : Scheduler) (f : ℕ) : Type 0 where
  no_budget : s.config.max_num_batched_tokens ≡ 0 → Stuck s f
  no_seqs : s.config.max_num_seqs ≡ 0 → Stuck s f
  no_chunks : s.config.enable_chunked_prefill ≡ false → Stuck s f
  too_small : Cramped s f → Stuck s f

abbrev start : Scheduler → Pass
start s = record { sched = s; out = empty_output; budget = s.config.max_num_batched_tokens }

abbrev FirstOutcome : Scheduler → Pass → List ℕ → Type 0
FirstOutcome s p' [] = p' ≡ start s
FirstOutcome s p' (f ∷ rest) = (0 < planned f p'.out.scheduled) ⊎ Stuck s f

Cramped-before : {s s' : Scheduler} (f : ℕ) → Moved s s' → Cramped s' f → Cramped s f
Cramped-before f m c =
    rw (sym m.setup.same_shape.same_blocks, sym m.setup.same_shape.same_size)
      (omega (arith, ap length (m.tokens f), c))

Between-start :
    (s : Scheduler)
    → IsWell s []
    → Between s.config.max_num_batched_tokens (start s) [] s.running []
Between-start s w = record {
  pass = record { well = w; spent = omega arith; summed = refl };
  order = refl;
  unplanned = λ j h. refl;
  dropped = λ j h. absurd (omega arith);
}

-- The first running sequence gets tokens, unless the step can give it none at all.
Stuck-of_passed :
    (s : Scheduler) (p' : Pass) (f : ℕ)
    → Later (start s) p'
    → PassedOver (start s) p' f []
    → Stuck s f
Stuck-of_passed s p' f later (PassedOver.was_preempted h) = cc
Stuck-of_passed s p' f later (PassedOver.no_chunks h) = Stuck.no_chunks h
Stuck-of_passed s p' f later (PassedOver.no_room (inl h)) = absurd (omega arith)
Stuck-of_passed s p' f later (PassedOver.no_room (inr h)) =
    Stuck.too_small (Cramped-before f later.moved h)

running_phase :
    (s : Scheduler) (ids : List ℕ)
    → IsWell s []
    → s.running ≡ ids
    → (p' : Pass) × (run_running ids (start s) ≡ ok p')
      × PassOk s.config.max_num_batched_tokens p'
      × Later (start s) p'
      × FirstOutcome s p' ids
unfolding run_running
running_phase s [] w e = (start s, refl, (Between-start s w).pass, Later-refl (start s), refl)
running_phase s (f ∷ rest) w e =
    let limit = s.config.max_num_batched_tokens in
    let b : Between limit (start s) [] (f ∷ rest) [] =
      subst (λ q. Between limit (start s) [] q []) e (Between-start s w) in
    elim (Bool-cases (limit == 0)) [
      | inl none_left ↦ (
        start s,
        rw none_left,
        b.pass,
        Later-refl (start s),
        inr (Stuck.no_budget (ground arith)),
      )
      | inr room ↦
          let (p1, done, keep, drop, e1, later1, split, b1, outcome) =
            visit limit (start s) f rest [] (f ∷ rest) [] (sym (append-nil (f ∷ rest))) b
              (ground arith) in
          let (p2, e2, ok2, later2) = run_running_lem limit rest p1 done keep drop split b1 in
          (
            p2,
            rw (room, e1, e2),
            ok2,
            Later-trans later1 later2,
            elim outcome [
              | inl served ↦ inl (omega (arith, later2.more f))
              | inr why ↦ inr (Stuck-of_passed s p1 f later1 why)
            ],
          )
    ]

-- Scheduled: the first request in line computes at least one more token in this step, and has lost
-- nothing; or it is stuck.
abbrev pub Served : Scheduler → Scheduler → SchedulerOutput → ℕ → Type 0
Served s s' out f =
    ((0 < planned f out.scheduled)
      × ((s.seqs f).num_computed_tokens ≤ (s'.seqs f).num_computed_tokens))
    ⊎ Stuck s f

-- What `schedule` does.
pub record Scheduled (s s' : Scheduler) (out : SchedulerOutput) : Type 0 where
  pub well : IsWell s' out.scheduled
  pub setup : SameSetup s s'
  pub same_line : line s' ≡ line s
  pub tokens : (j : ℕ) → (s'.seqs j).token_ids ≡ (s.seqs j).token_ids
  pub keeps : Keeps (line s) s.seqs s'.seqs
  pub budget : total_tokens out ≤ s.config.max_num_batched_tokens
  pub summed : sum_new out.scheduled ≡ total_tokens out
  pub first : (f : ℕ) (rest : List ℕ) → line s ≡ f ∷ rest → Served s s' out f

-- A sequence with an item runs, and does not wait.
not_waiting :
    {s : Scheduler} {items : List ScheduledSequence} (f : ℕ)
    → IsWell s items
    → 0 < planned f items
    → count f s.waiting ≡ 0
not_waiting {s} {items} f w h = elim (Bool-cases (count f s.running == 0)) [
  | inl away ↦
      absurd (omega (arith, planned_absent s.seqs s.running items f w.items_ok (ground arith)))
  | inr runs ↦ ground (arith, w.distinct f)
]

Stuck-of_NotAdmitted :
    (s : Scheduler) (f : ℕ) → s.running ≡ [] → NotAdmitted (start s) f → Stuck s f
Stuck-of_NotAdmitted s f run (NotAdmitted.no_budget h) = Stuck.no_budget h
Stuck-of_NotAdmitted s f run (NotAdmitted.full h) = Stuck.no_seqs (omega (arith, ap length run))
Stuck-of_NotAdmitted s f run (NotAdmitted.no_chunks h) = Stuck.no_chunks h
Stuck-of_NotAdmitted s f run (NotAdmitted.no_room (inl h)) = absurd (omega (arith, ap length run))
Stuck-of_NotAdmitted s f run (NotAdmitted.no_room (inr h)) = Stuck.too_small h

pub not-Stuck :
    (s : Scheduler) (f : ℕ)
    → 0 < s.config.max_num_batched_tokens
    → 0 < s.config.max_num_seqs
    → s.config.enable_chunked_prefill ≡ true
    → num_tokens (s.seqs f) + s.bm.block_size ≤ s.bm.num_blocks * s.bm.block_size
    → ¬ Stuck s f
not-Stuck s f budget seqs chunks room (Stuck.no_budget h) = omega arith
not-Stuck s f budget seqs chunks room (Stuck.no_seqs h) = omega arith
not-Stuck s f budget seqs chunks room (Stuck.no_chunks h) = cc
not-Stuck s f budget seqs chunks room (Stuck.too_small h) = omega arith

first_of_running :
    (s : Scheduler) (f g : ℕ) (gs rest : List ℕ) → s.running ≡ g ∷ gs → line s ≡ f ∷ rest → g ≡ f
first_of_running s f g gs rest run in_line =
    let joined : (g ∷ gs) ++ s.waiting ≡ f ∷ rest = ap (λ q. q ++ s.waiting) (sym run) ∙ in_line in
    cc

Served-running :
    (s : Scheduler) (p1 p2 : Pass) (f : ℕ) (gs rest : List ℕ)
    → IsWell p1.sched p1.out.scheduled
    → s.running ≡ f ∷ gs
    → Later (start s) p1
    → Joined p1 p2
    → FirstOutcome s p1 s.running
    → Served s p2.sched p2.out f
Served-running s p1 p2 f gs rest w run later joined outcome =
    let first : FirstOutcome s p1 (f ∷ gs) = subst (FirstOutcome s p1) run outcome in
    elim first [
      | inr stuck ↦ inr stuck
      | inl planned_f ↦ elim (later.moved.stays f) [
        | inr waits ↦ absurd (omega (arith, not_waiting f w planned_f))
        | inl same ↦
            inl (omega (arith, joined.more f), omega (arith, joined.kept f planned_f, same))
      ]
    ]

Served-waiting :
    (s : Scheduler) (p1 p2 : Pass) (f : ℕ) (rest : List ℕ)
    → IsWell s []
    → s.running ≡ []
    → line s ≡ f ∷ rest
    → FirstOutcome s p1 s.running
    → HeadOutcome p1 p2 p1.sched.waiting
    → Served s p2.sched p2.out f
Served-waiting s p1 p2 f rest w run in_line outcome head =
    let same : p1 ≡ start s = subst (FirstOutcome s p1) run outcome in
    let waiting : s.waiting ≡ f ∷ rest = ap (λ q. q ++ s.waiting) (sym run) ∙ in_line in
    let fresh = w.waiting_ok f (ground (arith, ap (count f) waiting, eq→== f f refl)) in
    let head' : HeadOutcome (start s) p2 (f ∷ rest) =
      subst (HeadOutcome (start s) p2) waiting
        (subst (λ (p : Pass). HeadOutcome p p2 p.sched.waiting) same head) in
    elim head' [
      | inl planned_f ↦ inl (planned_f, omega (arith, fresh.no_computed))
      | inr why ↦ inr (Stuck-of_NotAdmitted s f run why)
    ]

pub schedule_lem :
    (hash : Option ℕ → List ℕ → ℕ) (s : Scheduler)
    → IsWell s []
    → (s' : Scheduler) × (out : SchedulerOutput) × (schedule hash s ≡ ok (s', out))
      × Scheduled s s' out
unfolding schedule
schedule_lem hash s w =
    let limit = s.config.max_num_batched_tokens in
    let (p1, e1, ok1, later, outcome) = running_phase s s.running w refl in
    let (p2, e2, ok2, joined, head) = admit_lem hash limit p1.sched.waiting p1 ok1 refl in
    (
      p2.sched,
      p2.out,
      rw (e1, e2),
      record {
        well = ok2.well;
        setup = SameSetup-trans later.moved.setup joined.setup;
        same_line = joined.same_line ∙ later.moved.same_line;
        tokens = λ j. joined.tokens j ∙ later.moved.tokens j;
        keeps =
            Keeps-trans (λ j. omega (arith, ap (count j) later.moved.same_line)) later.moved.keeps
              joined.keeps;
        budget = omega (arith, ok2.spent);
        summed = ok2.summed;
        first = λ f rest in_line. elim (List-cases s.running) [
          | inr (g, gs, some_run) ↦
              let same : g ≡ f = first_of_running s f g gs rest some_run in_line in
              Served-running s p1 p2 f gs rest ok1.well (some_run ∙ ap (λ q. q ∷ gs) same) later
                joined outcome
          | inl none_run ↦ Served-waiting s p1 p2 f rest w none_run in_line outcome head
        ];
      },
    )

-- The first request in line runs after `schedule`, unless it is stuck.
pub first_runs :
    (s s' : Scheduler) (out : SchedulerOutput) (f : ℕ) (rest : List ℕ)
    → IsWell s []
    → Scheduled s s' out
    → line s ≡ f ∷ rest
    → ¬ Stuck s f
    → ((0 < planned f out.scheduled)
        × ((s.seqs f).num_computed_tokens ≤ (s'.seqs f).num_computed_tokens))
      × (gs : List ℕ) × (s'.running ≡ f ∷ gs)
first_runs s s' out f rest w plan in_line free = elim (plan.first f rest in_line) [
  | inr stuck ↦ absurd (free stuck)
  | inl served ↦ elim (List-cases s'.running) [
    | inr (g, gs, run) ↦
        let same : g ≡ f = first_of_running s' f g gs rest run (plan.same_line ∙ in_line) in
        (served, gs, run ∙ ap (λ q. q ∷ gs) same)
    | inl none_run ↦ absurd (
        omega (
          arith,
          served.0,
          planned_absent s'.seqs s'.running out.scheduled f plan.well.items_ok
              (ap (count f) none_run),
        ))
  ]
]

-- On a well-formed scheduler with nothing scheduled, `schedule` does not raise, for any hash. The
-- scheduler is well-formed again with the output's items scheduled, its configuration, the shape of
-- the pool and the parameters are the same, the total of the output is within the budget of the
-- step, and it is the sum of the items.
pub schedule_total :
    (hash : Option ℕ → List ℕ → ℕ) (s : Scheduler)
    → IsWell s []
    → (s' : Scheduler) × (out : SchedulerOutput) × (schedule hash s ≡ ok (s', out))
      × IsWell s' out.scheduled
      × SameSetup s s'
      × (total_tokens out ≤ s.config.max_num_batched_tokens)
      × (sum_new out.scheduled ≡ total_tokens out)
schedule_total hash s w =
    let (s', out, e, p) = schedule_lem hash s w in (s', out, e, p.well, p.setup, p.budget, p.summed)

-- On a well-formed scheduler with nothing scheduled, `schedule` does not raise and keeps the order
-- of the requests: the running ones followed by the waiting ones are the same list, whatever it
-- preempts and admits, and the tokens of every sequence are the same.
pub schedule-line :
    (hash : Option ℕ → List ℕ → ℕ) (s : Scheduler)
    → IsWell s []
    → (s' : Scheduler) × (out : SchedulerOutput) × (schedule hash s ≡ ok (s', out))
      × (line s' ≡ line s)
      × ((j : ℕ) → (s'.seqs j).token_ids ≡ (s.seqs j).token_ids)
schedule-line hash s w =
    let (s', out, e, p) = schedule_lem hash s w in (s', out, e, p.same_line, p.tokens)

-- On a well-formed scheduler with nothing scheduled, with a positive budget, room for a running
-- sequence, chunked prefill, and a pool with a block more than the tokens of the first request in
-- line take, `schedule` does not raise, plans tokens for this request, and loses none that is
-- computed of it.
pub schedule_serves :
    (hash : Option ℕ → List ℕ → ℕ) (s : Scheduler) (f : ℕ) (rest : List ℕ)
    → IsWell s []
    → line s ≡ f ∷ rest
    → 0 < s.config.max_num_batched_tokens
    → 0 < s.config.max_num_seqs
    → s.config.enable_chunked_prefill ≡ true
    → num_tokens (s.seqs f) + s.bm.block_size ≤ s.bm.num_blocks * s.bm.block_size
    → (s' : Scheduler) × (out : SchedulerOutput) × (schedule hash s ≡ ok (s', out))
      × (0 < planned f out.scheduled)
      × ((s.seqs f).num_computed_tokens ≤ (s'.seqs f).num_computed_tokens)
schedule_serves hash s f rest w in_line budget seqs chunks room =
    let (s', out, e, p) = schedule_lem hash s w in
    elim (p.first f rest in_line) [
      | inl (planned_f, kept) ↦ (s', out, e, planned_f, kept)
      | inr stuck ↦ absurd (not-Stuck s f budget seqs chunks room stuck)
    ]
