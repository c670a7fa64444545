-- ===== src/Scheduler/Joining.antt =====
-- pagedllm/scheduler.py: a round of the loop of `schedule` over the waiting sequences: what it leaves
-- alone, and why it may end the loop.
use paged_llm.Base.{
  count, count-append, ℕ, ◌+◌, ◌*◌, ◌<◌, ◌≤◌, ◌≡◌, refl, sym, List, [], ◌∷◌, ◌++◌, ◌&&◌, ltb,
  length, append_assoc, ap, ◌∙◌, ◌⊎◌, ◌==◌, eq→==, false, List-cases, arith, Bool-cases, inl, inr,
}
use paged_llm.Sequence.{Sequence, SequenceStatus, num_tokens}
use paged_llm.BlockManager.{BlockManager}
use paged_llm.BlockManager.Invariant.{IsValid, SameShape}
use paged_llm.BlockManager.Grants.{needed}
use paged_llm.Scheduler.{Scheduler, ScheduledSequence, new_scheduled, write}
use paged_llm.Scheduler.Schedule.{Pass, admitted}
use paged_llm.Scheduler.Invariant.{planned, tables}
use paged_llm.Scheduler.Preempt.{SameSetup, SameSetup-refl, SameSetup-trans, planned-append}
use paged_llm.Scheduler.Order.{Keeps, Keeps-refl, Keeps-trans, Keeps-write, line}
use paged_llm.Scheduler.Cramped.{Cramped, Cramped-empty}
use paged_llm.BlockManager.Loops.{unreferenced}
use paged_llm.Scheduler.Visit.{PassOk}
use paged_llm.Scheduler.Admission.{planned_absent, not_running}

-- The admission loop goes on.
pub record Joined (p p' : Pass) : Type 0 where
  pub setup : SameSetup p.sched p'.sched
  pub same_line : line p'.sched ≡ line p.sched
  pub tokens : (j : ℕ) → (p'.sched.seqs j).token_ids ≡ (p.sched.seqs j).token_ids
  pub more : (j : ℕ) → planned j p.out.scheduled ≤ planned j p'.out.scheduled
  pub kept :
      (j : ℕ)
      → 0 < planned j p.out.scheduled
      → (p'.sched.seqs j).num_computed_tokens ≡ (p.sched.seqs j).num_computed_tokens
  pub keeps : Keeps (line p.sched) p.sched.seqs p'.sched.seqs

pub Joined-refl : (p : Pass) → Joined p p
Joined-refl p = record {
  setup = SameSetup-refl p.sched;
  same_line = refl;
  tokens = λ j. refl;
  more = λ j. omega arith;
  kept = λ j h. refl;
  keeps = Keeps-refl (line p.sched) p.sched.seqs;
}

pub Joined-trans : {p q r : Pass} → Joined p q → Joined q r → Joined p r
Joined-trans a b = record {
  setup = SameSetup-trans a.setup b.setup;
  same_line = b.same_line ∙ a.same_line;
  tokens = λ j. b.tokens j ∙ a.tokens j;
  more = λ j. omega (arith, a.more j, b.more j);
  kept = λ j h. b.kept j (omega (arith, a.more j)) ∙ a.kept j h;
  keeps = Keeps-trans (λ j. omega (arith, ap (count j) a.same_line)) a.keeps b.keeps;
}

-- A round that admits nothing may leave another block manager, and writes no change.
pub Joined-stop :
    (p : Pass) (bm' : BlockManager) (seqs' : ℕ → Sequence)
    → SameShape p.sched.bm bm'
    → ((j : ℕ) → seqs' j ≡ p.sched.seqs j)
    → Joined p (record p { sched = record p.sched { bm = bm'; seqs = seqs' } })
Joined-stop p bm' seqs' shape same = record {
  setup = record { same_config = refl; same_shape = shape; same_params = refl; same_eos = refl };
  same_line = refl;
  tokens = λ j. ap (λ (x : Sequence). x.token_ids) (same j);
  more = λ j. omega arith;
  kept = λ j h. ap (λ (x : Sequence). x.num_computed_tokens) (same j);
  keeps = record {
    prompts = λ j. ap (λ (x : Sequence). x.prompt_token_ids) (same j);
    outside = λ j h. same j;
  };
}

pub Joined-admitted :
    (limit : ℕ) (p : Pass) (id : ℕ) (rest table : List ℕ) (bm2 : BlockManager) (cached n : ℕ)
    → PassOk limit p
    → p.sched.waiting ≡ id ∷ rest
    → SameShape p.sched.bm bm2
    → let seq1 : Sequence = record (p.sched.seqs id) { block_table = table } in
      let sched1 : Scheduler = record p.sched { bm = bm2; seqs = write p.sched.seqs id seq1 } in
      let p' = admitted (record p { sched = sched1 }) id rest seq1 cached n in
      Joined p p' × (0 < n → 0 < planned id p'.out.scheduled)
Joined-admitted limit p id rest table bm2 cached n h e shape =
    let s = p.sched in
    let seq1 : Sequence = record (s.seqs id) { block_table = table } in
    let x : Sequence = record seq1 {
      num_computed_tokens = cached;
      num_cached_tokens = cached;
      status = SequenceStatus.running;
    } in
    let item : ScheduledSequence = new_scheduled id x n in
    let idle : planned id p.out.scheduled ≡ 0 =
      planned_absent s.seqs s.running p.out.scheduled id h.well.items_ok
        (not_running h.well id rest e) in
    let in_line : 0 < count id (line s) =
      ground (arith, count-append id s.running s.waiting, ap (count id) e, eq→== id id refl) in
    (
      record {
        setup = record {
          same_config = refl;
          same_shape = shape;
          same_params = refl;
          same_eos = refl;
        };
        same_line = append_assoc s.running (id ∷ []) rest ∙ ap (λ q. s.running ++ q) (sym e);
        tokens = λ j. elim (Bool-cases (id == j)) [
          | inl eq ↦ let e' : id ≡ j = ground arith in rw eq (ap (λ k. (s.seqs k).token_ids) e')
          | inr ne ↦ rw ne refl
        ];
        more = λ j. omega (arith, planned-append j p.out.scheduled (item ∷ []));
        kept = λ j planned_j. let other : (id == j) ≡ false = ground (arith, idle) in rw other refl;
        keeps =
            Keeps-trans (λ j. omega arith) (Keeps-write (line s) s.seqs id seq1 in_line refl)
              (Keeps-write (line s) (write s.seqs id seq1) id x in_line
                (rw (eq→== id id refl) refl));
      },
      λ pos. ground (arith, planned-append id p.out.scheduled (item ∷ []), eq→== id id refl),
    )

-- Why the head of the waiting queue is not admitted.
pub data NotAdmitted (p : Pass) (id : ℕ) : Type 0 where
  no_budget : p.budget ≡ 0 → NotAdmitted p id
  full : p.sched.config.max_num_seqs ≤ length p.sched.running → NotAdmitted p id
  no_chunks : p.sched.config.enable_chunked_prefill ≡ false → NotAdmitted p id
  no_room : (0 < length p.sched.running) ⊎ Cramped p.sched id → NotAdmitted p id

-- What becomes of the head of the queue.
abbrev pub HeadOutcome : Pass → Pass → List ℕ → Type 0
HeadOutcome p p' [] = Unit {0}
HeadOutcome p p' (id ∷ rest) = (0 < planned id p'.out.scheduled) ⊎ NotAdmitted p id

pub closed_reason :
    (p : Pass) (id : ℕ)
    → (ltb 0 p.budget && ltb (length p.sched.running) p.sched.config.max_num_seqs) ≡ false
    → NotAdmitted p id
closed_reason p id closed = elim (Bool-cases (ltb 0 p.budget)) [
  | inr spent ↦ NotAdmitted.no_budget (ground arith)
  | inl left ↦ NotAdmitted.full (ground arith)
]

pub write_same : (heap : ℕ → Sequence) (id j : ℕ) → write heap id (heap id) j ≡ heap j
write_same heap id j = elim (Bool-cases (id == j)) [
  | inl e ↦ rw e (ap heap (ground arith))
  | inr e ↦ rw e refl
]

pub refused_reason :
    (p : Pass) (id n : ℕ) (hits : List ℕ) (bm : BlockManager)
    → IsValid bm (tables p.sched.seqs p.sched.running)
    → SameShape p.sched.bm bm
    → (p.sched.seqs id).num_computed_tokens ≡ 0
    → (p.sched.seqs id).block_table ≡ []
    → length hits * bm.block_size + n ≤ num_tokens (p.sched.seqs id)
    → length bm.free ≤ needed bm (p.sched.seqs id) n hits + unreferenced bm hits
    → (0 < length p.sched.running) ⊎ Cramped p.sched id
refused_reason p id n hits bm v shape computed table fits short =
    elim (List-cases p.sched.running) [
      | inr (x, xs, some_run) ↦ inl (omega (arith, ap length some_run))
      | inl none_run ↦
          inr (Cramped-empty p.sched bm id n hits v shape none_run computed table fits short)
    ]
