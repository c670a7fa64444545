-- ===== src/Scheduler/Room.antt =====
-- pagedllm/scheduler.py: the loop of `schedule` that allocates for a running sequence and preempts
-- from the tail. It ends, and only sequences behind the one at hand, or that one, are preempted.
use paged_llm.Base.{
  ℕ, ◌+◌, ◌<◌, ◌≤◌, ◌≡◌, refl, List, [], ◌∷◌, ◌++◌, true, ◌==◌, count, arith, Bool-cases, inl, inr,
  eq→==,
}
use paged_llm.Sequence.{Sequence, num_tokens}
use paged_llm.BlockManager.{BlockManager}
use paged_llm.BlockManager.Invariant.{IsValid, SameShape}
use paged_llm.BlockManager.Grants.{Granted, Granted-tight}
use paged_llm.BlockManager.Private.{Tame}
use paged_llm.Scheduler.Exclusive.{Unfilled, Unfilled-Tame, Exclusive-write}
use paged_llm.Scheduler.{Scheduler, ScheduledSequence, new_scheduled, write}
use paged_llm.Scheduler.Invariant.{planned, ItemsOk, IsWell, ItemsOk-mono}
use paged_llm.Scheduler.Preempt.{planned-append, ItemsOk-append, others, IsWell-write}

module _ {s : Scheduler} {items : List ScheduledSequence} (w : IsWell s items) (id : ℕ)
    (here : 0 < count id s.running) where
  -- A write that keeps the token counts keeps the items.
  pub ItemsOk-write :
      (x : Sequence)
      → x.num_computed_tokens ≡ (s.seqs id).num_computed_tokens
      → num_tokens x ≡ num_tokens (s.seqs id)
      → ItemsOk (write s.seqs id x) s.running items
  ItemsOk-write x computed size =
      ItemsOk-mono s.seqs (write s.seqs id x) s.running s.running items
        (λ j p q. elim (Bool-cases (id == j)) [
          | inl e ↦
              let e' : id ≡ j = ground arith in
              (q, rw e (rw (← e') computed), rw e (rw (← e') size))
          | inr e ↦ (q, rw e refl, rw e refl)
        ])
        w.items_ok

  -- A refused allocation leaves the scheduler well.
  pub refused_IsWell :
      (bm' : BlockManager)
      → IsValid bm' ((s.seqs id).block_table ++ others w id here)
      → SameShape s.bm bm'
      → Tame s.bm bm'
      → IsWell (record s { bm = bm'; seqs = write s.seqs id (s.seqs id) }) items
  refused_IsWell bm' v shape tame =
      IsWell-write w id here (s.seqs id) bm' items v shape (w.running_ok id here) (λ j ne. refl)
        (ItemsOk-write (s.seqs id) refl refl)
        (Exclusive-write s.seqs s.running w.exclusive tame shape id (s.seqs id) s.running
          (Unfilled-Tame (s.seqs id) tame shape (w.exclusive.1 id here)) (λ j ne p. p))

  -- A granted allocation of `n` tokens lets the sequence be scheduled for them.
  pub Granted-IsWell :
      (bm' : BlockManager) (n : ℕ) (table : List ℕ)
      → Granted s.bm bm' (s.seqs id) n [] (others w id here) table
      → Tame s.bm bm'
      → Unfilled bm' (record (s.seqs id) { block_table = table })
      → planned id items ≡ 0
      → 0 < n
      → (s.seqs id).num_computed_tokens + n ≤ num_tokens (s.seqs id)
      → let x : Sequence = record (s.seqs id) { block_table = table } in
        IsWell
          (record s { bm = bm'; seqs = write s.seqs id x })
          (items ++ new_scheduled id x n ∷ [])
  Granted-IsWell bm' n table g tame own fresh pos fits =
      let x : Sequence = record (s.seqs id) { block_table = table } in
      let run = w.running_ok id here in
      let item : ScheduledSequence = new_scheduled id x n in
      let self : (id == id) ≡ true = eq→== id id refl in
      IsWell-write w id here x bm' (items ++ item ∷ []) g.valid g.shape
        (record {
          status_running = run.status_running;
          unfinished = run.unfinished;
          within = ground (arith, planned-append id items (item ∷ []));
          covered = ground (arith, g.room, planned-append id items (item ∷ []));
          tight = ground (
            arith,
            planned-append id items (item ∷ []),
            Granted-tight (s.seqs id) n [] (others w id here) table g w.valid.size_pos
                (omega arith),
          );
          short = run.short;
        })
        (λ j ne. ground (arith, planned-append j items (item ∷ [])))
        (ItemsOk-append (write s.seqs id x) s.running items item (ItemsOk-write x refl refl) fresh
          (here, pos, rw self refl, refl, tt))
        (Exclusive-write s.seqs s.running w.exclusive tame g.shape id x s.running own (λ j ne p. p))
