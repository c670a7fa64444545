-- ===== src/Scheduler/Preempt.antt =====
-- pagedllm/scheduler.py: a write to a running sequence, and `_preempt`.
use paged_llm.Base.{
  ℕ, ◌+◌, ◌<◌, ◌≡◌, ◌≢◌, refl, ◌∙◌, List, [], ◌∷◌, ◌++◌, false, if◌then◌else◌, ◌==◌, count, erase,
  count-erase, length-erase, remove_present, value_error, arith, Bool-cases, inl, inr, ok,
}
use paged_llm.Sequence.{Sequence, reset_for_recompute}
use paged_llm.BlockManager.{BlockManager}
use paged_llm.BlockManager.Invariant.{
  IsValid, SameShape, SameShape-refl, SameShape-trans, IsValid-of_SameCount,
}
use paged_llm.BlockManager.Sequences.{free_total}
use paged_llm.BlockManager.Growth.{free-Tame}
use paged_llm.Scheduler.Exclusive.{Exclusive, Exclusive-away}
use paged_llm.Scheduler.{Scheduler, SchedulerOutput, ScheduledSequence, write, preempt}
use paged_llm.Scheduler.Invariant.{
  tables, planned, RunningOk, ItemsOk, IsWell, tables_split, tables-write, tables_absent,
  ItemsOk-mono,
}

-- What a step of the scheduler leaves alone.
pub record SameSetup (s s' : Scheduler) : Type 0 where
  pub same_config : s'.config ≡ s.config
  pub same_shape : SameShape s.bm s'.bm
  pub same_params : s'.params ≡ s.params
  pub same_eos : s'.eos_token_id ≡ s.eos_token_id

pub SameSetup-refl : (s : Scheduler) → SameSetup s s
SameSetup-refl s = record {
  same_config = refl;
  same_shape = SameShape-refl s.bm;
  same_params = refl;
  same_eos = refl;
}

pub SameSetup-trans : {a b c : Scheduler} → SameSetup a b → SameSetup b c → SameSetup a c
SameSetup-trans s t = record {
  same_config = t.same_config ∙ s.same_config;
  same_shape = SameShape-trans s.same_shape t.same_shape;
  same_params = t.same_params ∙ s.same_params;
  same_eos = t.same_eos ∙ s.same_eos;
}

pub planned-append :
    (id : ℕ) (xs ys : List ScheduledSequence)
    → planned id (xs ++ ys) ≡ planned id xs + planned id ys
planned-append id [] ys = omega arith
planned-append id (x ∷ xs) ys = omega (arith, planned-append id xs ys)

-- An item for a sequence with none yet may follow the others.
pub ItemsOk-append :
    (seqs : ℕ → Sequence) (running : List ℕ) (items : List ScheduledSequence)
    (i : ScheduledSequence)
    → ItemsOk seqs running items
    → planned i.seq items ≡ 0
    → ItemsOk seqs running (i ∷ [])
    → ItemsOk seqs running (items ++ i ∷ [])
ItemsOk-append seqs running [] i h new last = last
ItemsOk-append seqs running (j ∷ js) i h new last = (
  h.0,
  h.1,
  h.2,
  ground (arith, h.1, h.3, planned-append j.seq js (i ∷ [])),
  ItemsOk-append seqs running js i h.4 (ground arith) last,
)

module _ {s : Scheduler} {items : List ScheduledSequence} (w : IsWell s items) (id : ℕ)
    (here : 0 < count id s.running) where
  -- The references of the other running sequences.
  abbrev pub others : List ℕ
  others = tables s.seqs (erase id s.running)

  pub own_and_others : IsValid s.bm ((s.seqs id).block_table ++ others)
  own_and_others = IsValid-of_SameCount w.valid (tables_split s.seqs id s.running here)

  -- A running sequence `x` in place of the old one, with the items that go with it.
  pub IsWell-write :
      (x : Sequence) (bm' : BlockManager) (items' : List ScheduledSequence)
      → IsValid bm' (x.block_table ++ others)
      → SameShape s.bm bm'
      → RunningOk s.config s.bm.block_size x (planned id items')
      → ((j : ℕ) → j ≢ id → planned j items' ≡ planned j items)
      → ItemsOk (write s.seqs id x) s.running items'
      → Exclusive bm' (write s.seqs id x) s.running
      → IsWell (record s { bm = bm'; seqs = write s.seqs id x }) items'
  IsWell-write x bm' items' v shape own same ok_items ex = record {
    valid =
        IsValid-of_SameCount v (tables-write s.seqs id x s.running (omega (arith, w.distinct id)));
    distinct = w.distinct;
    running_ok = λ j h. rw shape.same_size (elim (Bool-cases (id == j)) [
      | inl e ↦ let e' : id ≡ j = ground arith in rw e (rw (← e') own)
      | inr e ↦ rw (e, same j (ground arith)) (w.running_ok j h)
    ]);
    waiting_ok = λ j h. ground (arith, w.waiting_ok j h, w.distinct id);
    items_ok = ok_items;
    exclusive = ex;
    capacity = w.capacity;
  }

  -- A running sequence without a scheduled item is preempted: it goes to the head of the waiting
  -- queue and gives back its blocks.
  pub preempt_lem :
      (out : SchedulerOutput)
      → planned id items ≡ 0
      → (s' : Scheduler) × (preempt s out id
          ≡ ok (s', record out { preempted = out.preempted ++ id ∷ [] }))
        × IsWell s' items
        × SameSetup s s'
        × (s'.running ≡ erase id s.running)
        × (s'.waiting ≡ id ∷ s.waiting)
        × (s'.seqs ≡ write s.seqs id (reset_for_recompute (s.seqs id)))
  unfolding preempt
  preempt_lem out none_planned =
      let (bm', e, v, shape, f) = free_total (s.seqs id) others own_and_others in
      let back : Sequence = reset_for_recompute (s.seqs id) in
      let run = w.running_ok id here in
      let gone : count id (erase id s.running) ≡ 0 =
        ground (arith, count-erase id id s.running here, w.distinct id) in
      let counts : (j : ℕ)
          → count j s.running ≡ (if id == j then 1 else 0) + count j (erase id s.running) =
        λ j. count-erase j id s.running here in
      (
        record s {
          running = erase id s.running;
          bm = bm';
          seqs = write s.seqs id back;
          waiting = id ∷ s.waiting;
          num_preemptions = s.num_preemptions + 1;
        },
        rw (remove_present value_error id s.running here, e),
        record {
          valid = rw (tables_absent s.seqs id back (erase id s.running) gone) v;
          distinct = λ j. ground (arith, w.distinct j, counts j);
          running_ok = λ j h.
              let other : (id == j) ≡ false = ground (arith, counts j, w.distinct j) in
              rw (shape.same_size, other) (w.running_ok j (omega (arith, counts j)));
          waiting_ok = λ j h. elim (Bool-cases (id == j)) [
            | inl e ↦ rw e (record {
              status_waiting = refl;
              no_blocks = refl;
              no_computed = refl;
              nonempty = omega arith;
              short = run.short;
            })
            | inr e ↦ rw e (w.waiting_ok j (ground arith))
          ];
          items_ok =
              ItemsOk-mono s.seqs (write s.seqs id back) s.running (erase id s.running) items
                (λ j p q. elim (Bool-cases (id == j)) [
                  | inl e ↦
                      let e' : id ≡ j = ground arith in
                      let p' : 0 < planned id items = rw e' p in absurd (omega arith)
                  | inr e ↦ (ground (arith, counts j), rw e refl, rw e refl)
                ])
                w.items_ok;
          exclusive =
              Exclusive-away s.seqs s.running w.exclusive (free-Tame s.bm bm' (s.seqs id) _ e) shape
                id back (erase id s.running)
                (λ j h. (ground (arith, counts j, w.distinct j), omega (arith, counts j)));
          capacity = omega (arith, w.capacity, length-erase id s.running here);
        },
        record { same_config = refl; same_shape = shape; same_params = refl; same_eos = refl },
        refl,
        refl,
        refl,
      )
