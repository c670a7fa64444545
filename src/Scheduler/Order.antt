-- ===== src/Scheduler/Order.antt =====
-- pagedllm/scheduler.py: what the loop of `schedule` over the running sequences leaves alone: the
-- order of the requests, their tokens, and what is computed of those that are not preempted.
use paged_llm.Base.{
  ℕ, ◌<◌, ◌≤◌, ◌≡◌, ◌⊎◌, inl, inr, refl, subst, eq→==, count-append, false, sym, ap, ◌∙◌, List, [],
  ◌∷◌, ◌++◌, append_assoc, count, ◌==◌, arith, Bool-cases,
}
use paged_llm.Sequence.{Sequence, reset_for_recompute}
use paged_llm.BlockManager.{BlockManager}
use paged_llm.BlockManager.Invariant.{SameShape}
use paged_llm.Scheduler.{Scheduler, write}
use paged_llm.Scheduler.Preempt.{SameSetup, SameSetup-refl, SameSetup-trans}

-- All requests that are not finished: those that run, and behind them those that wait.
abbrev pub line : Scheduler → List ℕ
line s = s.running ++ s.waiting

-- A step keeps the prompts of all sequences, and all of those that are not in the list.
pub record Keeps (ids : List ℕ) (heap heap' : ℕ → Sequence) : Type 0 where
  pub prompts : (j : ℕ) → (heap' j).prompt_token_ids ≡ (heap j).prompt_token_ids
  pub outside : (j : ℕ) → count j ids ≡ 0 → heap' j ≡ heap j

pub Keeps-refl : (ids : List ℕ) (heap : ℕ → Sequence) → Keeps ids heap heap
Keeps-refl ids heap = record { prompts = λ j. refl; outside = λ j h. refl }

pub Keeps-trans :
    {xs ys : List ℕ} {a b c : ℕ → Sequence}
    → ((j : ℕ) → count j ys ≤ count j xs)
    → Keeps xs a b
    → Keeps ys b c
    → Keeps xs a c
Keeps-trans less h k = record {
  prompts = λ j. k.prompts j ∙ h.prompts j;
  outside = λ j gone. k.outside j (omega (arith, less j)) ∙ h.outside j gone;
}

pub Keeps-write :
    (ids : List ℕ) (heap : ℕ → Sequence) (id : ℕ) (x : Sequence)
    → 0 < count id ids
    → x.prompt_token_ids ≡ (heap id).prompt_token_ids
    → Keeps ids heap (write heap id x)
Keeps-write ids heap id x here prompt = record {
  prompts = λ j. elim (Bool-cases (id == j)) [
    | inl e ↦
        let e' : id ≡ j = ground arith in rw e (prompt ∙ ap (λ k. (heap k).prompt_token_ids) e')
    | inr e ↦ rw e refl
  ];
  outside = λ j gone. let other : (id == j) ≡ false = ground arith in rw other refl;
}

pub record Moved (s s' : Scheduler) : Type 0 where
  pub setup : SameSetup s s'
  pub same_line : line s' ≡ line s
  pub tokens : (j : ℕ) → (s'.seqs j).token_ids ≡ (s.seqs j).token_ids
  pub stays :
      (j : ℕ)
      → ((s'.seqs j).num_computed_tokens ≡ (s.seqs j).num_computed_tokens)
        ⊎ (0 < count j s'.waiting)
  pub waits : (j : ℕ) → count j s.waiting ≤ count j s'.waiting
  pub keeps : Keeps (line s) s.seqs s'.seqs

pub Moved-refl : (s : Scheduler) → Moved s s
Moved-refl s = record {
  setup = SameSetup-refl s;
  same_line = refl;
  tokens = λ j. refl;
  stays = λ j. inl refl;
  waits = λ j. omega arith;
  keeps = Keeps-refl (line s) s.seqs;
}

pub Moved-trans : {a b c : Scheduler} → Moved a b → Moved b c → Moved a c
Moved-trans m k = record {
  setup = SameSetup-trans m.setup k.setup;
  same_line = k.same_line ∙ m.same_line;
  tokens = λ j. k.tokens j ∙ m.tokens j;
  stays = λ j. elim (k.stays j) [
    | inr back ↦ inr back
    | inl same ↦ elim (m.stays j) [
      | inl same' ↦ inl (same ∙ same')
      | inr back ↦ inr (omega (arith, k.waits j))
    ]
  ];
  waits = λ j. omega (arith, m.waits j, k.waits j);
  keeps = Keeps-trans (λ j. omega (arith, ap (count j) m.same_line)) m.keeps k.keeps;
}

-- A write that keeps the tokens and what is computed of them.
pub Moved-write :
    (s : Scheduler) (id : ℕ) (x : Sequence) (bm' : BlockManager)
    → SameShape s.bm bm'
    → 0 < count id s.running
    → x.prompt_token_ids ≡ (s.seqs id).prompt_token_ids
    → x.token_ids ≡ (s.seqs id).token_ids
    → x.num_computed_tokens ≡ (s.seqs id).num_computed_tokens
    → Moved s (record s { bm = bm'; seqs = write s.seqs id x })
Moved-write s id x bm' shape here prompt tokens computed = record {
  setup = record { same_config = refl; same_shape = shape; same_params = refl; same_eos = refl };
  same_line = refl;
  tokens = λ j. elim (Bool-cases (id == j)) [
    | inl e ↦ let e' : id ≡ j = ground arith in rw e (tokens ∙ ap (λ k. (s.seqs k).token_ids) e')
    | inr e ↦ rw e refl
  ];
  stays = λ j. elim (Bool-cases (id == j)) [
    | inl e ↦
        let e' : id ≡ j = ground arith in
        inl (rw e (computed ∙ ap (λ k. (s.seqs k).num_computed_tokens) e'))
    | inr e ↦ inl (rw e refl)
  ];
  waits = λ j. omega arith;
  keeps =
      Keeps-write (line s) s.seqs id x (omega (arith, count-append id s.running s.waiting)) prompt;
}

-- The last running sequence is preempted.
pub Moved-preempt :
    (s s' : Scheduler) (front : List ℕ) (v : ℕ)
    → SameSetup s s'
    → s.running ≡ front ++ v ∷ []
    → s'.running ≡ front
    → s'.waiting ≡ v ∷ s.waiting
    → s'.seqs ≡ write s.seqs v (reset_for_recompute (s.seqs v))
    → Moved s s'
Moved-preempt s s' front v setup run run' wait heap = record {
  setup = setup;
  same_line =
      ap (λ q. q ++ s'.waiting) run'
      ∙ ap (λ q. front ++ q) wait
      ∙ sym (append_assoc front (v ∷ []) s.waiting)
      ∙ ap (λ q. q ++ s.waiting) (sym run);
  tokens = λ j. rw heap (elim (Bool-cases (v == j)) [
    | inl e ↦ let e' : v ≡ j = ground arith in rw e (ap (λ k. (s.seqs k).token_ids) e')
    | inr e ↦ rw e refl
  ]);
  stays = λ j. elim (Bool-cases (v == j)) [
    | inl e ↦ inr (ground (arith, ap (count j) wait))
    | inr e ↦ inl (rw (heap, e) refl)
  ];
  waits = λ j. omega (arith, ap (count j) wait);
  keeps = subst (Keeps (line s) s.seqs) (sym heap) (
      Keeps-write (line s) s.seqs v (reset_for_recompute (s.seqs v))
        (ground (
          arith,
          count-append v s.running s.waiting,
          ap (count v) run,
          count-append v front (v ∷ []),
          eq→== v v refl,
        ))
        refl);
}
