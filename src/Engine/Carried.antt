-- ===== src/Engine/Carried.antt =====
-- pagedllm/engine.py: what happens to each request in line in a step, and in a number of steps.
use paged_llm.Base.{
  ℕ, ◌+◌, ◌<◌, ◌≤◌, ◌≡◌, ◌⊎◌, inl, inr, sym, ap, subst, ◌∙◌, count, count-append, ◌==◌, true,
  Bool-cases, arith,
}
use paged_llm.Sequence.{is_finished}
use paged_llm.Scheduler.{Scheduler, SchedulerOutput}
use paged_llm.Scheduler.Order.{line, Keeps, Keeps-refl, Keeps-trans}
use paged_llm.Scheduler.Plan.{Scheduled}
use paged_llm.Scheduler.Advance.{Advanced}

pub record Carried (s s' : Scheduler) : Type 0 where
  pub keeps : Keeps (line s) s.seqs s'.seqs
  pub none_new : (j : ℕ) → count j (line s') ≤ count j (line s)
  -- A request leaves the line only when it is finished.
  pub ends :
      (j : ℕ) → 0 < count j (line s) → (0 < count j (line s')) ⊎ (is_finished (s'.seqs j) ≡ true)

pub Carried-refl : (s : Scheduler) → Carried s s
Carried-refl s = record {
  keeps = Keeps-refl (line s) s.seqs;
  none_new = λ j. omega arith;
  ends = λ j h. inl h;
}

pub Carried-trans : {a b c : Scheduler} → Carried a b → Carried b c → Carried a c
Carried-trans {a} {b} {c} h k = record {
  keeps = Keeps-trans h.none_new h.keeps k.keeps;
  none_new = λ j. omega (arith, h.none_new j, k.none_new j);
  ends = λ j here. elim (Bool-cases (count j (line b) == 0)) [
    | inr on ↦ k.ends j (ground arith)
    | inl off ↦ elim (h.ends j here) [
      | inl on ↦ absurd (ground arith)
      | inr finished ↦ inr (ap is_finished (k.keeps.outside j (ground arith)) ∙ finished)
    ]
  ];
}

-- Of the plan and the update of a step.
pub Carried-step :
    (s s1 s2 s3 : Scheduler) (out : SchedulerOutput)
    → Scheduled s s1 out
    → s2 ≡ record s1 { bm = s2.bm }
    → Advanced out.scheduled s2 s3
    → Carried s s3
Carried-step s s1 s2 s3 out plan same advanced =
    let running : s2.running ≡ s1.running = ap (λ (x : Scheduler). x.running) same in
    let waiting : s3.waiting ≡ s1.waiting =
      advanced.waiting ∙ ap (λ (x : Scheduler). x.waiting) same in
    let seqs : s2.seqs ≡ s1.seqs = ap (λ (x : Scheduler). x.seqs) same in
    let before : (j : ℕ) → count j s2.running + count j s3.waiting ≡ count j (line s) = λ j. omega (
      arith,
      ap (count j) running,
      ap (count j) waiting,
      count-append j s1.running s1.waiting,
      ap (count j) plan.same_line,
    ) in
    let after : (j : ℕ) → count j (line s3) ≡ count j s3.running + count j s3.waiting =
      λ j. count-append j s3.running s3.waiting in
    let keeps1 : Keeps (line s) s.seqs s2.seqs =
      subst (Keeps (line s) s.seqs) (sym seqs) plan.keeps in
    record {
      keeps = Keeps-trans (λ j. omega (arith, before j)) keeps1 advanced.keeps;
      none_new = λ j. omega (arith, before j, after j, advanced.none_new j);
      ends = λ j here. elim (Bool-cases (count j s2.running == 0)) [
        | inl off ↦ inl (ground (arith, before j, after j))
        | inr on ↦ elim (advanced.ends j (ground arith)) [
          | inl still ↦ inl (omega (arith, after j))
          | inr finished ↦ inr finished
        ]
      ];
    }
