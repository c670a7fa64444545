-- ===== src/Scheduler/Eviction.antt =====
-- pagedllm/scheduler.py: what the allocation loop of `schedule` leaves, for every length of the
-- tail that it may have to preempt.
use paged_llm.Base.{
  ℕ, zero, suc, ◌+◌, ◌<◌, ◌≤◌, ◌≡◌, ◌⊎◌, refl, ap, sym, subst, ◌∙◌, List, [], ◌∷◌, ◌++◌, true,
  false, ◌==◌, length, count, count-append, append_assoc, append-nil, erase, erase_last, reverse,
  reverse-snoc, last?, last?-append, snoc_cases, length-append, arith, inl, inr, none, some,
  List-cases, Result, ok, eq→==,
}
use paged_llm.Sequence.{Sequence, num_tokens}
use paged_llm.BlockManager.{BlockManager}
use paged_llm.BlockManager.Slots.{allocate_slots}
use paged_llm.BlockManager.Invariant.{IsValid, SameShape}
use paged_llm.BlockManager.Grants.{Granted, allocate_slots_total}
use paged_llm.BlockManager.Growth.{allocate_slots-Grown}
use paged_llm.Scheduler.Exclusive.{Unfilled-Grown}
use paged_llm.Scheduler.{Scheduler, SchedulerOutput, ScheduledSequence, new_scheduled, write}
use paged_llm.Scheduler.Schedule.{make_room}
use paged_llm.Scheduler.Invariant.{planned, IsWell}
use paged_llm.Scheduler.Preempt.{others, own_and_others, preempt_lem}
use paged_llm.Scheduler.Order.{Moved, Moved-trans, Moved-write, Moved-preempt}
use paged_llm.Scheduler.Cramped.{Cramped, Cramped-alone}
use paged_llm.Scheduler.Room.{refused_IsWell, Granted-IsWell}

module _ (items : List ScheduledSequence) (id n : ℕ) (done : List ℕ) where
  -- The sequence has its blocks; the running ones behind it are `keep`, those preempted `drop`, the
  -- last first.
  abbrev pub Got : Scheduler → List ℕ → List ℕ → Type 0
  Got s' rest ps =
      (keep : List ℕ) × (drop : List ℕ) × (rest ≡ keep ++ drop)
      × (s'.running ≡ done ++ id ∷ keep)
      × (ps ≡ reverse drop)
      × IsWell s' (items ++ new_scheduled id (s'.seqs id) n ∷ [])

  -- All behind the sequence are preempted, the last first, and then itself: others run before it, or the pool is too
  -- small for it.
  abbrev pub Lost : Scheduler → List ℕ → List ℕ → Type 0
  Lost s' rest ps =
      (s'.running ≡ done)
      × (ps ≡ reverse rest ++ id ∷ [])
      × IsWell s' items
      × (0 < count id s'.waiting)
      × ((0 < length done) ⊎ Cramped s' id)

  abbrev pub Made :
      Scheduler → SchedulerOutput → List ℕ → Result (Scheduler × SchedulerOutput) → Type 0
  Made s out rest r =
      (s' : Scheduler) × (ps : List ℕ) × (r
        ≡ ok (s', record out { preempted = out.preempted ++ ps }))
      × Moved s s'
      × (Got s' rest ps ⊎ Lost s' rest ps)

  -- One more preempted at the front of what the rest of the loop did.
  Made-after :
      (s s2 : Scheduler) (out : SchedulerOutput) (rest : List ℕ) (v : ℕ)
      (r : Result (Scheduler × SchedulerOutput))
      → Moved s s2
      → Made s2 (record out { preempted = out.preempted ++ v ∷ [] }) rest r
      → Made s out (rest ++ v ∷ []) r
  Made-after s s2 out rest v r setup (s', ps, e, setup', res) = (
    s',
    v ∷ ps,
    e ∙ ap (λ q. ok (s', record out { preempted = q })) (append_assoc out.preempted (v ∷ []) ps),
    Moved-trans setup setup',
    elim res [
      | inl (keep, drop, split, run, these, well) ↦ inl (
        keep,
        drop ++ v ∷ [],
        ap (λ q. q ++ v ∷ []) split ∙ append_assoc keep drop (v ∷ []),
        run,
        ap (◌∷◌ v) these ∙ sym (reverse-snoc drop v),
        well,
      )
      | inr (run, these, well, waits, why) ↦ inr (
        run,
        ap (◌∷◌ v) these ∙ ap (λ q. q ++ id ∷ []) (sym (reverse-snoc rest v)),
        well,
        waits,
        why,
      )
    ],
  )

  -- A round whose allocation goes through.
  got_room :
      {s : Scheduler} (w : IsWell s items) (here : 0 < count id s.running) (fuel : ℕ)
      (out : SchedulerOutput) (rest : List ℕ) (new table : List ℕ) (bm' : BlockManager)
      → s.running ≡ done ++ id ∷ rest
      → planned id items ≡ 0
      → 0 < n
      → (s.seqs id).num_computed_tokens + n ≤ num_tokens (s.seqs id)
      → allocate_slots s.bm (s.seqs id) n []
        ≡ ok (some new, record (s.seqs id) { block_table = table }, bm')
      → Granted s.bm bm' (s.seqs id) n [] (others w id here) table
      → Made s out rest (make_room (suc fuel) s out id n)
  unfolding make_room
  got_room {s} w here fuel out rest new table bm' run fresh pos fits e g =
      let x : Sequence = record (s.seqs id) { block_table = table } in
      let grown = allocate_slots-Grown s.bm bm' (s.seqs id) x n [] (some new) 0 w.valid.ids tt e in
      let self : (id == id) ≡ true = eq→== id id refl in
      (
        record s { bm = bm'; seqs = write s.seqs id x },
        [],
        rw (e, append-nil out.preempted),
        Moved-write s id x bm' g.shape here refl refl refl,
        inl (
          rest,
          [],
          sym (append-nil rest),
          run,
          refl,
          rw self (
              Granted-IsWell w id here bm' n table g grown.0
                (Unfilled-Grown s.bm bm' (s.seqs id) table w.valid g.shape (w.exclusive.1 id here) n
                  e)
                fresh pos fits),
        ),
      )

  -- The scheduler after an allocation that is refused.
  abbrev refused : Scheduler → BlockManager → Scheduler
  refused s bm' = record s { bm = bm'; seqs = write s.seqs id (s.seqs id) }

  module _ {s : Scheduler} (w : IsWell s items) (here : 0 < count id s.running) (bm' : BlockManager)
      (e : allocate_slots s.bm (s.seqs id) n [] ≡ ok (none, s.seqs id, bm'))
      (v : IsValid bm' ((s.seqs id).block_table ++ others w id here)) (shape : SameShape s.bm bm')
      (fresh : planned id items ≡ 0) where
    refused-Moved : Moved s (refused s bm')
    refused-Moved = Moved-write s id (s.seqs id) bm' shape here refl refl refl

    -- A round that is refused with no sequence behind: the sequence itself is preempted.
    lost_room :
        (fuel : ℕ) (out : SchedulerOutput) (rest : List ℕ)
        → s.running ≡ done ++ id ∷ []
        → rest ≡ []
        → (0 < length done) ⊎ Cramped s id
        → Made s out rest (make_room (suc fuel) s out id n)
    unfolding make_room
    lost_room fuel out rest run none_left why =
        let self : (id == id) ≡ true = eq→== id id refl in
        let w1 : IsWell (refused s bm') items =
          refused_IsWell w id here bm' v shape
            (allocate_slots-Grown s.bm bm' (s.seqs id) (s.seqs id) n [] none 0 w.valid.ids tt
              e).0 in
        let last : last? s.running ≡ some id = ap last? run ∙ last?-append done id in
        let (s2, e2, w2, setup2, run2, wait2, heap2) = preempt_lem w1 id here out fresh in
        let apart : count id done ≡ 0 =
          ground (arith, w.distinct id, ap (count id) run, count-append id done (id ∷ [])) in
        let run2' : s2.running ≡ done = run2 ∙ ap (erase id) run ∙ erase_last id done apart in
        let moved : Moved (refused s bm') s2 =
          Moved-preempt (refused s bm') s2 done id setup2 run run2' wait2 heap2 in
        (
          s2,
          id ∷ [],
          rw (e, last, e2, self),
          Moved-trans refused-Moved moved,
          inr (
            run2',
            ap (λ q. reverse q ++ id ∷ []) (sym none_left),
            w2,
            ground (arith, ap (count id) wait2),
            elim why [
              | inl before ↦ inl before
              | inr small ↦
                  let same : num_tokens (s2.seqs id) ≡ num_tokens (s.seqs id) =
                    ap length ((Moved-trans refused-Moved moved).tokens id) in
                  let same_blocks =
                    (Moved-trans refused-Moved moved).setup.same_shape.same_blocks in
                  let same_size = (Moved-trans refused-Moved moved).setup.same_shape.same_size in
                  inr (rw (same, same_blocks, same_size) small)
            ],
          ),
        )

    -- A round that is refused with sequences behind: the last of them is preempted.
    evict_last :
        (fuel : ℕ) (out : SchedulerOutput) (rest : List ℕ) (u : ℕ)
        → s.running ≡ done ++ id ∷ rest ++ u ∷ []
        → planned u items ≡ 0
        → let out2 : SchedulerOutput = record out { preempted = out.preempted ++ u ∷ [] } in
          (s2 : Scheduler) × (make_room (suc fuel) s out id n ≡ make_room fuel s2 out2 id n)
          × IsWell s2 items
          × Moved s s2
          × (s2.running ≡ done ++ id ∷ rest)
          × ((s2.seqs id).num_computed_tokens ≡ (s.seqs id).num_computed_tokens)
    unfolding make_room
    evict_last fuel out rest u run fresh_u =
        let front = done ++ id ∷ rest in
        let self : (id == id) ≡ true = eq→== id id refl in
        let w1 : IsWell (refused s bm') items =
          refused_IsWell w id here bm' v shape
            (allocate_slots-Grown s.bm bm' (s.seqs id) (s.seqs id) n [] none 0 w.valid.ids tt
              e).0 in
        let last : last? s.running ≡ some u = ap last? run ∙ last?-append front u in
        let counts : (j : ℕ) → count j s.running ≡ count j front + count j (u ∷ []) =
          λ j. ap (count j) run ∙ count-append j front (u ∷ []) in
        let there : 0 < count u s.running = ground (arith, counts u, eq→== u u refl) in
        let apart : count u front ≡ 0 = ground (arith, counts u, w.distinct u, eq→== u u refl) in
        let other : (u == id) ≡ false = ground (arith, apart, count-append u done (id ∷ rest)) in
        let (s2, e2, w2, setup2, run2, wait2, heap2) = preempt_lem w1 u there out fresh_u in
        let run2' : s2.running ≡ front = run2 ∙ ap (erase u) run ∙ erase_last u front apart in
        (
          s2,
          rw (e, last, e2, other),
          w2,
          Moved-trans refused-Moved
              (Moved-preempt (refused s bm') s2 front u setup2 run run2' wait2 heap2),
          run2',
          rw (heap2, other, self),
        )

  -- The loop does not raise, and ends with more fuel than there are running sequences behind this
  -- one, on a well-formed scheduler whose items are for none of these, for a positive number of
  -- tokens that the sequence has left to compute. Either the sequence gets its blocks, only a tail
  -- of those behind it is preempted, and the output gets exactly this tail, the last first; or all
  -- behind it are preempted and it is waiting, the output gets exactly these, the last first, and
  -- then the sequence itself, and others run before it or the pool has not one block more than its
  -- tokens take. The output has no other change, the scheduler is well-formed, with the item in the
  -- first case, and the order of the requests and their tokens are the same.
  pub make_room_lem :
      (fuel : ℕ) (s : Scheduler) (out : SchedulerOutput) (rest : List ℕ)
      → length rest < fuel
      → IsWell s items
      → s.running ≡ done ++ id ∷ rest
      → planned id items ≡ 0
      → ((j : ℕ) → 0 < count j rest → planned j items ≡ 0)
      → 0 < n
      → (s.seqs id).num_computed_tokens + n ≤ num_tokens (s.seqs id)
      → Made s out rest (make_room fuel s out id n)
  make_room_lem zero s out rest h w run fresh fresh' pos fits = absurd (omega arith)
  make_room_lem (suc fuel) s out rest h w run fresh fresh' pos fits =
      let here : 0 < count id s.running =
        ground (arith, ap (count id) run, count-append id done (id ∷ rest), eq→== id id refl) in
      elim (allocate_slots_total (s.seqs id) n [] (others w id here) (own_and_others w id here)
        tt) [
          | inr (new, table, bm', e, g) ↦
              got_room w here fuel out rest new table bm' run fresh pos fits e g
          | inl (bm', e, v, shape, short, _) ↦ elim (snoc_cases rest) [
            | inl none_left ↦
                let run' : s.running ≡ done ++ id ∷ [] = run ∙ ap (λ q. done ++ id ∷ q) none_left in
                lost_room w here bm' e v shape fresh fuel out rest run' none_left
                  (elim (List-cases done) [
                    | inr (d, ds, some_done) ↦ inl (omega (arith, ap length some_done))
                    | inl none_done ↦ inr (
                        Cramped-alone id n w (run' ∙ ap (λ q. q ++ id ∷ []) none_done) fresh fits
                          (omega (arith, short)))
                  ])
            | inr (rest0, u, split) ↦
                let counts : (j : ℕ) → count j rest ≡ count j rest0 + count j (u ∷ []) =
                  λ j. ap (count j) split ∙ count-append j rest0 (u ∷ []) in
                let (s2, step, w2, moved, run2, computed) =
                  evict_last w here bm' e v shape fresh fuel out rest0 u
                    (run
                      ∙ ap (λ q. done ++ id ∷ q) split
                      ∙ sym (append_assoc done (id ∷ rest0) (u ∷ [])))
                    (fresh' u (ground (arith, counts u, eq→== u u refl))) in
                let out2 : SchedulerOutput = record out { preempted = out.preempted ++ u ∷ [] } in
                let ih : Made s2 out2 rest0 (make_room fuel s2 out2 id n) =
                  make_room_lem fuel s2 out2 rest0
                    (omega (arith, ap length split, length-append rest0 (u ∷ []))) w2 run2 fresh
                    (λ j p. fresh' j (omega (arith, counts j))) pos
                    (omega (arith, computed, ap length (moved.tokens id), fits)) in
                subst (λ q. Made s out q (make_room (suc fuel) s out id n)) (sym split)
                  (subst (λ r. Made s out (rest0 ++ u ∷ []) r) (sym step)
                    (Made-after s s2 out rest0 u _ moved ih))
          ]
        ]
