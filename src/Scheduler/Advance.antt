-- ===== src/Scheduler/Advance.antt =====
-- pagedllm/scheduler.py: how far `update` brings the first running sequence.
use paged_llm.Base.{
  ℕ, ◌+◌, ◌<◌, ◌≤◌, ◌≡◌, ◌⊎◌, inl, inr, refl, ap, ◌∙◌, List, [], ◌∷◌, ◌==◌, length, count, erase,
  length-erase, if◌then◌else◌, count-erase, true, arith, Bool-cases,
}
use paged_llm.Sequence.{Sequence, num_tokens, is_finished}
use paged_llm.BlockManager.{BlockManager}
use paged_llm.BlockManager.Invariant.{SameShape}
use paged_llm.Scheduler.{Scheduler, ScheduledSequence, write}
use paged_llm.Scheduler.Invariant.{planned}
use paged_llm.Scheduler.Order.{Keeps, Keeps-refl, Keeps-trans, Keeps-write}
use paged_llm.Scheduler.Preempt.{SameSetup, SameSetup-refl, SameSetup-trans}

-- The first sequence runs on with its planned tokens computed, and has not lost a token.
abbrev pub RunsOn : Scheduler → Scheduler → List ScheduledSequence → ℕ → Type 0
RunsOn s s' items f =
    (rest : List ℕ) × (s'.running ≡ f ∷ rest)
    × ((s.seqs f).num_computed_tokens + planned f items ≤ (s'.seqs f).num_computed_tokens)
    × (num_tokens (s.seqs f) ≤ num_tokens (s'.seqs f))

-- From `s` to `s'` the items have been processed.
pub record Advanced (items : List ScheduledSequence) (s s' : Scheduler) : Type 0 where
  pub setup : SameSetup s s'
  pub waiting : s'.waiting ≡ s.waiting
  pub fewer : length s'.running ≤ length s.running
  pub first :
      (f : ℕ) (rest : List ℕ)
      → s.running ≡ f ∷ rest
      → RunsOn s s' items f ⊎ (length s'.running < length s.running)
  pub keeps : Keeps s.running s.seqs s'.seqs
  pub none_new : (j : ℕ) → count j s'.running ≤ count j s.running
  -- A sequence stops running only when it is finished.
  pub ends :
      (j : ℕ) → 0 < count j s.running → (0 < count j s'.running) ⊎ (is_finished (s'.seqs j) ≡ true)

pub Advanced-refl : (s : Scheduler) → Advanced [] s s
Advanced-refl s = record {
  setup = SameSetup-refl s;
  waiting = refl;
  fewer = omega arith;
  first = λ f rest run. inl (rest, run, omega arith, omega arith);
  keeps = Keeps-refl s.running s.seqs;
  none_new = λ j. omega arith;
  ends = λ j h. inl h;
}

pub Advanced-trans :
    {a b c : Scheduler} (i : ScheduledSequence) (items : List ScheduledSequence)
    → Advanced (i ∷ []) a b
    → Advanced items b c
    → Advanced (i ∷ items) a c
Advanced-trans {a} {b} {c} i items h k = record {
  setup = SameSetup-trans h.setup k.setup;
  waiting = k.waiting ∙ h.waiting;
  fewer = omega (arith, h.fewer, k.fewer);
  first = λ f rest run. elim (h.first f rest run) [
    | inr less ↦ inr (omega (arith, k.fewer))
    | inl (rest1, run1, computed1, tokens1) ↦ elim (k.first f rest1 run1) [
      | inr less ↦ inr (omega (arith, h.fewer))
      | inl (rest2, run2, computed2, tokens2) ↦ inl (rest2, run2, omega arith, omega arith)
    ]
  ];
  keeps = Keeps-trans h.none_new h.keeps k.keeps;
  none_new = λ j. omega (arith, h.none_new j, k.none_new j);
  ends = λ j here. elim (Bool-cases (count j b.running == 0)) [
    | inr on ↦ k.ends j (ground arith)
    | inl off ↦ elim (h.ends j here) [
      | inl on ↦ absurd (ground arith)
      | inr finished ↦ inr (ap is_finished (k.keeps.outside j (ground arith)) ∙ finished)
    ]
  ];
}

pub Advanced-goes_on :
    (s : Scheduler) (item : ScheduledSequence) (x : Sequence) (bm' : BlockManager)
    → SameShape s.bm bm'
    → x.num_computed_tokens ≡ (s.seqs item.seq).num_computed_tokens + item.num_new_tokens
    → num_tokens (s.seqs item.seq) ≤ num_tokens x
    → 0 < count item.seq s.running
    → x.prompt_token_ids ≡ (s.seqs item.seq).prompt_token_ids
    → Advanced (item ∷ []) s (record s { bm = bm'; seqs = write s.seqs item.seq x })
Advanced-goes_on s item x bm' shape computed tokens here prompt = record {
  setup = record { same_config = refl; same_shape = shape; same_params = refl; same_eos = refl };
  waiting = refl;
  fewer = omega arith;
  first = λ f rest run. elim (Bool-cases (item.seq == f)) [
    | inl e ↦
        let e' : item.seq ≡ f = ground arith in
        let old = ap (λ k. (s.seqs k).num_computed_tokens) e' in
        let old_size = ap (λ k. num_tokens (s.seqs k)) e' in
        inl (rest, run, rw e (omega (arith, computed, old)), rw e (omega (arith, tokens, old_size)))
    | inr e ↦ inl (rest, run, rw e (omega arith), rw e (omega arith))
  ];
  keeps = Keeps-write s.running s.seqs item.seq x here prompt;
  none_new = λ j. omega arith;
  ends = λ j h. inl h;
}

pub Advanced-leaves :
    (s : Scheduler) (item : ScheduledSequence) (x : Sequence) (bm' : BlockManager)
    → SameShape s.bm bm'
    → 0 < count item.seq s.running
    → x.prompt_token_ids ≡ (s.seqs item.seq).prompt_token_ids
    → is_finished x ≡ true
    → Advanced
        (item ∷ [])
        s
        (record s { running = erase item.seq s.running; bm = bm'; seqs = write s.seqs item.seq x })
Advanced-leaves s item x bm' shape here prompt finished =
    let less = length-erase item.seq s.running here in
    let counts : (j : ℕ)
        → count j s.running
          ≡ (if item.seq == j then 1 else 0) + count j (erase item.seq s.running) =
      λ j. count-erase j item.seq s.running here in
    record {
      setup = record {
        same_config = refl;
        same_shape = shape;
        same_params = refl;
        same_eos = refl;
      };
      waiting = refl;
      fewer = omega (arith, less);
      first = λ f rest run. inr (omega (arith, less));
      keeps = Keeps-write s.running s.seqs item.seq x here prompt;
      none_new = λ j. omega (arith, counts j);
      ends = λ j h. elim (Bool-cases (item.seq == j)) [
        | inl e ↦ inr (rw e finished)
        | inr e ↦ inl (ground (arith, counts j, e))
      ];
    }
