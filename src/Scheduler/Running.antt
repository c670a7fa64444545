-- ===== src/Scheduler/Running.antt =====
-- pagedllm/scheduler.py: the loop of `schedule` over the running sequences.
use paged_llm.Base.{
  eq→==, ℕ, suc, ◌+◌, ◌<◌, ◌≤◌, ◌≡◌, refl, ap, sym, subst, ◌∙◌, List, [], ◌∷◌, ◌++◌, true, false,
  ◌&&◌, not, ◌==◌, ltb, leb, length, count, count-append, count-reverse, reverse, append_assoc,
  append-nil, contains, contains_of_mem, length-append, arith, Bool-cases, inl, inr, ok,
}
use paged_llm.Sequence.{num_tokens, num_uncomputed_tokens}
use paged_llm.Scheduler.{Scheduler, ScheduledSequence, new_scheduled}
use paged_llm.Scheduler.Schedule.{
  Pass, chunk, charge, is_running, schedule_running, visit_running, run_running,
}
use paged_llm.Scheduler.Invariant.{planned, RunningOk}
use paged_llm.Scheduler.Order.{Moved}
use paged_llm.Scheduler.Preempt.{planned-append}
use paged_llm.Scheduler.Eviction.{Got, Lost, make_room_lem}
use paged_llm.Scheduler.Visit.{
  sum_new-append, PassOk, Later, Later-refl, Later-trans, Between, PassedOver, Visited,
}

module _ (limit : ℕ) (p : Pass) (id : ℕ) (done keep drop : List ℕ)
    (b : Between limit p done (id ∷ keep) drop) where
  -- A sequence that is passed over stays where it is.
  skipped : PassedOver p p id done → Visited limit p id done (keep ++ drop) (ok p)
  skipped why = (
    p,
    done ++ id ∷ [],
    keep,
    drop,
    refl,
    Later-refl p,
    refl,
    record {
      pass = b.pass;
      order = b.order ∙ sym (append_assoc done (id ∷ []) keep);
      unplanned = λ j h. b.unplanned j (omega arith);
      dropped = b.dropped;
    },
    inr why,
  )

  charged :
      (s1 : Scheduler) (ps : List ℕ) (n : ℕ)
      → n ≤ p.budget
      → 0 < n
      → Moved p.sched s1
      → Got p.out.scheduled id n done s1 keep ps
      → Visited limit p id done (keep ++ drop) (
          ok (
            charge
              (record p { sched = s1; out = record p.out { preempted = p.out.preempted ++ ps } })
              id
              n))
  charged s1 ps n le pos setup (kept, gone, split, run, these, well) =
      let item : ScheduledSequence = new_scheduled id (s1.seqs id) n in
      (
        charge (record p { sched = s1; out = record p.out { preempted = p.out.preempted ++ ps } })
            id n,
        done ++ id ∷ [],
        kept,
        gone ++ drop,
        refl,
        record {
          moved = setup;
          more = λ j. omega (arith, planned-append j p.out.scheduled (item ∷ []));
        },
        ap (λ q. q ++ drop) split ∙ append_assoc kept gone drop,
        record {
          pass = record {
            well = well;
            spent = ground (arith, b.pass.spent);
            summed = ground (arith, b.pass.summed, sum_new-append p.out.scheduled (item ∷ []));
          };
          order = run ∙ sym (append_assoc done (id ∷ []) kept);
          unplanned = λ j h. ground (
            arith,
            b.unplanned j,
            planned-append j p.out.scheduled (item ∷ []),
            ap (count j) split,
            count-append j kept gone,
            well.distinct j,
            ap (count j) run,
            count-append j done (id ∷ kept),
          );
          dropped = λ j h. ground (
            arith,
            ap (count j) these,
            count-reverse j gone,
            b.dropped j,
            count-append j gone drop,
            count-append j p.out.preempted ps,
          );
        },
        inl (ground (arith, planned-append id p.out.scheduled (item ∷ []), eq→== id id refl)),
      )

  lost :
      (s1 : Scheduler) (ps : List ℕ)
      → Moved p.sched s1
      → Lost p.out.scheduled id 0 done s1 keep ps
      → Visited limit p id done
          (keep ++ drop)
          (ok (record p { sched = s1; out = record p.out { preempted = p.out.preempted ++ ps } }))
  lost s1 ps setup (run, these, well, waits, why) = (
    record p { sched = s1; out = record p.out { preempted = p.out.preempted ++ ps } },
    done,
    [],
    keep ++ drop,
    refl,
    record { moved = setup; more = λ j. omega arith },
    refl,
    record {
      pass = record { well = well; spent = b.pass.spent; summed = b.pass.summed };
      order = run ∙ sym (append-nil done);
      unplanned = λ j h. absurd (omega arith);
      dropped = λ j h. ground (
        arith,
        ap (count j) these,
        count-append j (reverse keep) (id ∷ []),
        count-reverse j keep,
        b.dropped j,
        count-append j keep drop,
        count-append j p.out.preempted ps,
      );
    },
    inr (PassedOver.no_room why),
  )

  -- The sequence gets its tokens, or is preempted with all behind it.
  schedule_running_lem :
      (n : ℕ)
      → 0 < n
      → n ≤ p.budget
      → (p.sched.seqs id).num_computed_tokens + n ≤ num_tokens (p.sched.seqs id)
      → Visited limit p id done (keep ++ drop) (schedule_running p id n)
  unfolding schedule_running
  schedule_running_lem n pos le fits =
      let items = p.out.scheduled in
      let enough : length keep < suc (length p.sched.running) =
        omega (arith, ap length b.order, length-append done (id ∷ keep)) in
      let made =
        make_room_lem items id n done (suc (length p.sched.running)) p.sched p.out keep enough
          b.pass.well b.order (b.unplanned id (ground arith)) (λ j h. b.unplanned j (omega arith))
          pos fits in
      let (s1, ps, e, setup, res) = made in
      elim res [
        | inl got ↦
            let (kept, gone, split, run, these, well) = got in
            let here : 0 < count id s1.running =
              ground (arith, ap (count id) run, count-append id done (id ∷ kept)) in
            let runs : is_running (s1.seqs id).status ≡ true =
              ap is_running (well.running_ok id here).status_running in
            subst (Visited limit p id done (keep ++ drop)) (sym (rw (e, runs)))
              (charged s1 ps n le pos setup got)
        | inr gone ↦
            let (run, these, well, waits, _) = gone in
            let stopped : is_running (s1.seqs id).status ≡ false =
              ap is_running (well.waiting_ok id waits).status_waiting in
            subst (Visited limit p id done (keep ++ drop)) (sym (rw (e, stopped)))
              (lost s1 ps setup gone)
      ]

  visit_running_lem : 0 < p.budget → Visited limit p id done (keep ++ drop) (visit_running p id)
  unfolding visit_running
  visit_running_lem room =
      let num_new = num_uncomputed_tokens (p.sched.seqs id) in
      let here : 0 < count id p.sched.running =
        ground (arith, ap (count id) b.order, count-append id done (id ∷ keep)) in
      let run = b.pass.well.running_ok id here in
      elim (Bool-cases (contains id p.out.preempted)) [
        | inl gone ↦ rw gone (skipped (PassedOver.was_preempted gone))
        | inr kept ↦
            elim (Bool-cases (ltb p.budget num_new && not p.sched.config.enable_chunked_prefill)) [
              | inl waits ↦
                  subst (Visited limit p id done (keep ++ drop))
                    (sym (rw (kept, some_new run, waits)))
                    (skipped (PassedOver.no_chunks (ground arith)))
              | inr goes ↦
                  subst (Visited limit p id done (keep ++ drop))
                    (sym (rw (kept, some_new run, goes)))
                    (schedule_running_lem (chunk num_new p.budget) (ground arith) (ground arith)
                      (ground arith))
            ]
      ]
    where
      some_new :
          RunningOk p.sched.config p.sched.bm.block_size
            (p.sched.seqs id)
            (planned id p.out.scheduled)
          → leb 1 (num_uncomputed_tokens (p.sched.seqs id)) ≡ true
      some_new run = ground arith

visit_dropped : (p : Pass) (id : ℕ) → contains id p.out.preempted ≡ true → visit_running p id ≡ ok p
unfolding visit_running
visit_dropped p id gone = rw gone

-- A visit of the first sequence of the list: it is running, or has been preempted.
pub visit :
    (limit : ℕ) (p : Pass) (id : ℕ) (ids done keep drop : List ℕ)
    → id ∷ ids ≡ keep ++ drop
    → Between limit p done keep drop
    → 0 < p.budget
    → Visited limit p id done ids (visit_running p id)
visit limit p id ids done (k ∷ keep) drop split b room =
    let same : id ≡ k = ground (arith, split) in
    let same_tail : ids ≡ keep ++ drop = ground (arith, split) in
    rw (same, same_tail) (visit_running_lem limit p k done keep drop b room)
visit limit p id ids done [] drop split b room =
    let gone : contains id p.out.preempted ≡ true =
      contains_of_mem id p.out.preempted (b.dropped id (ground (arith, ap (count id) split))) in
    (
      p,
      done,
      [],
      ids,
      visit_dropped p id gone,
      Later-refl p,
      refl,
      record {
        pass = b.pass;
        order = b.order;
        unplanned = b.unplanned;
        dropped = λ j h. b.dropped j (ground (arith, ap (count j) split));
      },
      inr (PassedOver.was_preempted gone),
    )

-- The whole loop, for the sequences still to visit.
pub run_running_lem :
    (limit : ℕ) (ids : List ℕ) (p : Pass) (done keep drop : List ℕ)
    → ids ≡ keep ++ drop
    → Between limit p done keep drop
    → (p' : Pass) × (run_running ids p ≡ ok p') × PassOk limit p' × Later p p'
unfolding run_running
run_running_lem limit [] p done keep drop split b = (p, refl, b.pass, Later-refl p)
run_running_lem limit (id ∷ ids) p done keep drop split b = elim (Bool-cases (p.budget == 0)) [
  | inl spent ↦ (p, rw spent, b.pass, Later-refl p)
  | inr room ↦
      let (p1, done1, keep1, drop1, e, setup, split1, b1, _) =
        visit limit p id ids done keep drop split b (ground arith) in
      let (p2, e2, ok2, setup2) = run_running_lem limit ids p1 done1 keep1 drop1 split1 b1 in
      (p2, rw (room, e, e2), ok2, Later-trans setup setup2)
]
