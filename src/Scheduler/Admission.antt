-- ===== src/Scheduler/Admission.antt =====
-- pagedllm/scheduler.py: the loop of `schedule` over the waiting sequences.
use paged_llm.Base.{
  ℕ, ◌+◌, ◌*◌, ◌/◌, ◌<◌, ◌≤◌, ◌≡◌, refl, ap, sym, ◌∙◌, List, [], ◌∷◌, ◌++◌, true, false, ◌==◌,
  length, count, count-append, append_assoc, append-nil, length-append, arith, Bool-cases, inl, inr,
  eq→==,
}
use paged_llm.Sequence.{Sequence, SequenceStatus, num_tokens}
use paged_llm.BlockManager.{BlockManager}
use paged_llm.BlockManager.Invariant.{IsValid, SameShape, SameShape-trans, IsValid-of_SameCount}
use paged_llm.BlockManager.Grants.{Granted, Granted-tight}
use paged_llm.BlockManager.Private.{Tame, Clean}
use paged_llm.Scheduler.Exclusive.{Exclusive-away, Exclusive-write}
use paged_llm.Scheduler.{Scheduler, ScheduledSequence, new_scheduled, write}
use paged_llm.Scheduler.Invariant.{
  planned, tables, tables_absent, IsWell, RunningOk, WaitingOk, ItemsOk, ItemsOk-mono,
}
use paged_llm.Scheduler.Preempt.{planned-append, ItemsOk-append}

-- A sequence that does not run has no item.
pub planned_absent :
    (seqs : ℕ → Sequence) (running : List ℕ) (items : List ScheduledSequence) (id : ℕ)
    → ItemsOk seqs running items
    → count id running ≡ 0
    → planned id items ≡ 0
planned_absent seqs running [] id h none_here = refl
planned_absent seqs running (i ∷ is) id h none_here =
    let other : (i.seq == id) ≡ false = elim (Bool-cases (i.seq == id)) [
      | inl e ↦
          let e' : i.seq ≡ id = ground arith in
          let p : 0 < count id running = rw (← e') h.0 in absurd (omega arith)
      | inr e ↦ e
    ] in
    rw other (omega (arith, planned_absent seqs running is id h.4 none_here))

tables-append :
    (seqs : ℕ → Sequence) (xs ys : List ℕ)
    → tables seqs (xs ++ ys) ≡ tables seqs xs ++ tables seqs ys
tables-append seqs [] ys = refl
tables-append seqs (x ∷ xs) ys =
    ap (λ q. (seqs x).block_table ++ q) (tables-append seqs xs ys)
    ∙ sym (append_assoc (seqs x).block_table (tables seqs xs) (tables seqs ys))

module _ {s : Scheduler} {items : List ScheduledSequence} (w : IsWell s items) (id : ℕ)
    (rest : List ℕ) (head : s.waiting ≡ id ∷ rest) where
  pub not_running : count id s.running ≡ 0
  not_running = ground (arith, w.distinct id, ap (count id) head)

  pub waits : WaitingOk s.config (s.seqs id)
  waits = w.waiting_ok id (ground (arith, ap (count id) head))

  -- A write to a waiting sequence is no change to the running ones and their items.
  items_after :
      (x : Sequence) (running' : List ℕ)
      → ((j : ℕ) → 0 < count j s.running → 0 < count j running')
      → ItemsOk (write s.seqs id x) running' items
  items_after x running' more =
      ItemsOk-mono s.seqs (write s.seqs id x) s.running running' items
        (λ j p q.
          let other : (id == j) ≡ false = ground (arith, not_running) in
          (more j q, rw other refl, rw other refl))
        w.items_ok

  -- A write of the same value, with another block manager.
  pub refused_admission :
      (bm' : BlockManager)
      → IsValid bm' (tables s.seqs s.running)
      → SameShape s.bm bm'
      → Tame s.bm bm'
      → IsWell (record s { bm = bm'; seqs = write s.seqs id (s.seqs id) }) items
  refused_admission bm' v shape tame =
      let same : (j : ℕ) → write s.seqs id (s.seqs id) j ≡ s.seqs j = λ j.
        elim (Bool-cases (id == j)) [
          | inl e ↦ rw e (ap s.seqs (ground arith))
          | inr e ↦ rw e refl
        ] in
      record {
        valid = rw (tables_absent s.seqs id (s.seqs id) s.running not_running) v;
        distinct = w.distinct;
        running_ok = λ j h. rw (shape.same_size, same j) (w.running_ok j h);
        waiting_ok = λ j h. rw (same j) (w.waiting_ok j h);
        items_ok = items_after (s.seqs id) s.running (λ j p. p);
        exclusive =
            Exclusive-away s.seqs s.running w.exclusive tame shape id (s.seqs id) s.running
              (λ j h. (ground (arith, not_running), h));
        capacity = w.capacity;
      }

  admitted_ok :
      (bm1 bm' : BlockManager) (hits table : List ℕ) (n : ℕ)
      → SameShape s.bm bm1
      → 0 < s.bm.block_size
      → Granted bm1 bm' (s.seqs id) n hits (tables s.seqs s.running) table
      → 0 < n
      → length hits * s.bm.block_size + n ≤ num_tokens (s.seqs id)
      → RunningOk s.config s.bm.block_size
          (record (s.seqs id) {
            block_table = table;
            num_computed_tokens = length hits * s.bm.block_size;
            num_cached_tokens = length hits * s.bm.block_size;
            status = SequenceStatus.running;
          })
          n
  admitted_ok bm1 bm' hits table n shape pos g new fits =
      let room = rw shape.same_size at (g.room) in
      let pos1 : 0 < bm1.block_size = rw shape.same_size pos in
      let spare : length (s.seqs id).block_table * bm1.block_size
          < (s.seqs id).num_computed_tokens + bm1.block_size =
        rw waits.no_blocks (omega arith) in
      let tight =
        rw shape.same_size at
          (Granted-tight (s.seqs id) n hits (tables s.seqs s.running) table g pos1 spare) in
      let zero_computed = waits.no_computed in
      record {
        status_running = refl;
        unfinished = omega arith;
        within = fits;
        covered = omega (arith, room);
        tight = omega (arith, tight);
        short = waits.short;
      }

  -- The head of the queue, with its blocks, joins the running sequences.
  pub Granted-admission :
      (bm1 bm' : BlockManager) (hits table : List ℕ) (n : ℕ)
      → SameShape s.bm bm1
      → 0 < s.bm.block_size
      → Granted bm1 bm' (s.seqs id) n hits (tables s.seqs s.running) table
      → Tame s.bm bm'
      → Clean bm' table (length hits * s.bm.block_size / bm'.block_size)
      → 0 < n
      → length hits * s.bm.block_size + n ≤ num_tokens (s.seqs id)
      → length s.running < s.config.max_num_seqs
      → let x : Sequence = record (s.seqs id) {
        block_table = table;
        num_computed_tokens = length hits * s.bm.block_size;
        num_cached_tokens = length hits * s.bm.block_size;
        status = SequenceStatus.running;
      } in
        IsWell
          (record s {
            bm = bm';
            waiting = rest;
            seqs = write s.seqs id x;
            running = s.running ++ id ∷ [];
          })
          (items ++ new_scheduled id x n ∷ [])
  Granted-admission bm1 bm' hits table n shape pos g tame own_clean new fits space =
      let bs = s.bm.block_size in
      let x : Sequence = record (s.seqs id) {
        block_table = table;
        num_computed_tokens = length hits * bs;
        num_cached_tokens = length hits * bs;
        status = SequenceStatus.running;
      } in
      let item : ScheduledSequence = new_scheduled id x n in
      let self : (id == id) ≡ true = eq→== id id refl in
      let alone : planned id items ≡ 0 =
        planned_absent s.seqs s.running items id w.items_ok not_running in
      let joined : (j : ℕ)
          → count j (s.running ++ id ∷ []) ≡ count j s.running + count j (id ∷ []) =
        λ j. count-append j s.running (id ∷ []) in
      let moved : tables (write s.seqs id x) (s.running ++ id ∷ [])
          ≡ tables s.seqs s.running ++ table =
        tables-append (write s.seqs id x) s.running (id ∷ [])
        ∙ rw (tables_absent s.seqs id x s.running not_running, self, append-nil table) in
      let plan : planned id (items ++ item ∷ []) ≡ n =
        ground (arith, planned-append id items (item ∷ [])) in
      let own : RunningOk s.config bs x (planned id (items ++ item ∷ [])) =
        rw plan (admitted_ok bm1 bm' hits table n shape pos g new fits) in
      record {
        valid = IsValid-of_SameCount g.valid (λ b. omega (
          arith,
          ap (count b) moved,
          count-append b table (tables s.seqs s.running),
          count-append b (tables s.seqs s.running) table,
        ));
        distinct = λ j. ground (arith, w.distinct j, joined j, ap (count j) head);
        running_ok = λ j h.
            rw (SameShape-trans shape g.shape).same_size (elim (Bool-cases (id == j)) [
              | inl e ↦ let e' : id ≡ j = ground arith in rw e (rw (← e') own)
              | inr e ↦
                  let same : planned j (items ++ item ∷ []) ≡ planned j items =
                    ground (arith, planned-append j items (item ∷ [])) in
                  rw (e, same) (w.running_ok j (ground (arith, joined j)))
            ]);
        waiting_ok = λ j h.
            let other : (id == j) ≡ false = ground (arith, w.distinct id, ap (count id) head) in
            rw other (w.waiting_ok j (ground (arith, ap (count j) head)));
        items_ok =
            ItemsOk-append (write s.seqs id x) (s.running ++ id ∷ []) items item
              (items_after x (s.running ++ id ∷ []) (λ j p. omega (arith, joined j))) alone
              (ground (arith, joined id), new, rw self refl, refl, tt);
        exclusive =
            Exclusive-write s.seqs s.running w.exclusive tame (SameShape-trans shape g.shape) id x
              (s.running ++ id ∷ []) own_clean (λ j ne h. ground (arith, joined j, ne, h));
        capacity = omega (arith, length-append s.running (id ∷ []));
      }
