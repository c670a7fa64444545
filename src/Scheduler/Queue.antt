-- ===== src/Scheduler/Queue.antt =====
-- pagedllm/scheduler.py: the loop of `schedule` over the waiting sequences as a whole.
use paged_llm.Base.{
  ℕ, ◌+◌, ◌-◌, ◌*◌, ◌/◌, ◌∙◌, some, none, ◌<◌, ◌≤◌, ◌≡◌, refl, sym, subst, fun_ext, List, [], ◌∷◌,
  ◌++◌, true, ◌&&◌, not, ltb, leb, length, arith, Bool-cases, inl, inr, Option, Result, ok,
}
use paged_llm.Sequence.{Sequence, SequenceStatus, num_tokens}
use paged_llm.BlockManager.{BlockManager}
use paged_llm.BlockManager.PrefixCache.{get_computed_blocks}
use paged_llm.BlockManager.Invariant.{IsValid, SameShape, SameShape-trans}
use paged_llm.BlockManager.Caching.{get_computed_blocks_lem}
use paged_llm.BlockManager.Grants.{Granted, allocate_slots_total}
use paged_llm.BlockManager.Private.{Tame, Tame-trans, Clean}
use paged_llm.BlockManager.Growth.{allocate_slots-Grown}
use paged_llm.BlockManager.Hashed.{get_computed_blocks_hashed}
use paged_llm.Scheduler.Exclusive.{Exclusive-Tame, Unfilled-hits}
use paged_llm.Scheduler.{Scheduler, ScheduledSequence, new_scheduled, write}
use paged_llm.Scheduler.Schedule.{Pass, chunk, admitted, admit}
use paged_llm.Scheduler.Invariant.{tables, IsWell}
use paged_llm.Scheduler.Joining.{
  Joined, Joined-refl, Joined-trans, Joined-stop, Joined-admitted, NotAdmitted, HeadOutcome,
  closed_reason, write_same, refused_reason,
}
use paged_llm.Scheduler.Visit.{PassOk, sum_new-append}
use paged_llm.Scheduler.Admission.{waits, refused_admission, Granted-admission}

-- The statistics of the prefix cache are no part of the invariant.
IsWell-bm :
    {s : Scheduler} {items : List ScheduledSequence} (bm' : BlockManager)
    → IsWell s items
    → IsValid bm' (tables s.seqs s.running)
    → SameShape s.bm bm'
    → Tame s.bm bm'
    → IsWell (record s { bm = bm' }) items
IsWell-bm {s} bm' w v shape tame = record {
  valid = v;
  distinct = w.distinct;
  running_ok = λ j h. rw shape.same_size (w.running_ok j h);
  waiting_ok = w.waiting_ok;
  items_ok = w.items_ok;
  exclusive = Exclusive-Tame s.seqs s.running w.exclusive tame shape;
  capacity = w.capacity;
}

write-write :
    (heap : ℕ → Sequence) (id : ℕ) (a b : Sequence) → write (write heap id a) id b ≡ write heap id b
write-write heap id a b = fun_ext λ j. ground arith

-- The loop's variables after an admission.
admitted-PassOk :
    (limit : ℕ) (p : Pass) (id : ℕ) (rest hits table : List ℕ) (bm1 bm2 : BlockManager)
    (cached n : ℕ)
    → PassOk limit p
    → p.sched.waiting ≡ id ∷ rest
    → SameShape p.sched.bm bm1
    → Granted bm1 bm2 (p.sched.seqs id) n hits (tables p.sched.seqs p.sched.running) table
    → Tame p.sched.bm bm2
    → Clean bm2 table (length hits * p.sched.bm.block_size / bm2.block_size)
    → 0 < n
    → n ≤ p.budget
    → cached ≡ length hits * p.sched.bm.block_size
    → cached + n ≤ num_tokens (p.sched.seqs id)
    → length p.sched.running < p.sched.config.max_num_seqs
    → let seq1 : Sequence = record (p.sched.seqs id) { block_table = table } in
      let sched1 : Scheduler = record p.sched { bm = bm2; seqs = write p.sched.seqs id seq1 } in
      PassOk limit (admitted (record p { sched = sched1 }) id rest seq1 cached n)
admitted-PassOk limit p id rest hits table bm1 bm2 cached n h e shape g tame own pos le same fits
      space =
    let s = p.sched in
    let seq1 : Sequence = record (s.seqs id) { block_table = table } in
    let x : Sequence = record seq1 {
      num_computed_tokens = cached;
      num_cached_tokens = cached;
      status = SequenceStatus.running;
    } in
    let item : ScheduledSequence = new_scheduled id x n in
    record {
      well =
          rw (write-write s.seqs id seq1 x, same)
            (Granted-admission h.well id rest e bm1 bm2 hits table n shape h.well.valid.size_pos g
              tame own pos (omega (arith, same)) space);
      spent = omega (arith, h.spent);
      summed = omega (arith, h.summed, sum_new-append p.out.scheduled (item ∷ []));
    }

module _ (hash : Option ℕ → List ℕ → ℕ) (limit : ℕ) where
  abbrev pub Ends : Pass → List ℕ → Result Pass → Type 0
  Ends p queue r =
      (p' : Pass) × (r ≡ ok p') × PassOk limit p' × Joined p p' × HeadOutcome p p' queue

  -- The admission loop never raises; it stops at the first sequence that does not fit.
  pub admit_lem :
      (queue : List ℕ) (p : Pass)
      → PassOk limit p
      → p.sched.waiting ≡ queue
      → Ends p queue (admit hash queue p)
  unfolding admit
  admit_lem [] p h e = (p, refl, h, Joined-refl p, tt)
  admit_lem (id ∷ rest) p h e =
      let s = p.sched in
      let seq = s.seqs id in
      let bs = s.bm.block_size in
      let wait = waits h.well id rest e in
      let got = get_computed_blocks hash s.bm seq in
      let (below, cached, left, v1, shape1) =
        get_computed_blocks_lem hash s.bm seq (tables s.seqs s.running) h.well.valid
          wait.nonempty in
      let (hashed, tame1) =
        get_computed_blocks_hashed hash s.bm seq (tables s.seqs s.running) h.well.valid in
      let num_new = num_tokens seq - got.1 in
      let n = chunk num_new p.budget in
      let some_new : leb 1 num_new ≡ true = ground arith in
      let s1 : Scheduler = record s { bm = got.2 } in
      let w1 : IsWell s1 p.out.scheduled = IsWell-bm got.2 h.well v1 shape1 tame1 in
      elim (Bool-cases (ltb 0 p.budget && ltb (length s.running) s.config.max_num_seqs)) [
        | inr closed ↦ (p, rw closed, h, Joined-refl p, inr (closed_reason p id closed))
        | inl open_now ↦
            elim (Bool-cases (ltb p.budget num_new && not s.config.enable_chunked_prefill)) [
              | inl long ↦ (
                record p { sched = s1 },
                rw (open_now, some_new, long),
                record { well = w1; spent = h.spent; summed = h.summed },
                Joined-stop p got.2 s.seqs shape1 (λ j. refl),
                inr (NotAdmitted.no_chunks (ground arith)),
              )
              | inr goes ↦
                  elim (allocate_slots_total seq n got.0 (tables s.seqs s.running)
                    (subst (λ t. IsValid got.2 (t ++ tables s.seqs s.running)) (sym wait.no_blocks)
                      v1)
                    (rw shape1.same_blocks below)) [
                      | inl (bm2, e2, v2, shape2, short, _) ↦
                          let v2' : IsValid bm2 (tables s.seqs s.running) =
                            subst (λ t. IsValid bm2 (t ++ tables s.seqs s.running)) wait.no_blocks
                              v2 in
                          (
                            record p { sched = record s { bm = bm2; seqs = write s.seqs id seq } },
                            rw (open_now, some_new, goes, e2),
                            record {
                              well =
                                  refused_admission h.well id rest e bm2 v2'
                                    (SameShape-trans shape1 shape2)
                                    (Tame-trans tame1
                                      (allocate_slots-Grown got.2 bm2 seq seq n got.0 none 0 v1.ids
                                        hashed e2).0);
                              spent = h.spent;
                              summed = h.summed;
                            },
                            Joined-stop p bm2 (write s.seqs id seq) (SameShape-trans shape1 shape2)
                                (write_same s.seqs id),
                            inr (
                                NotAdmitted.no_room (
                                  refused_reason p id n got.0 got.2 v1 shape1 wait.no_computed
                                    wait.no_blocks (rw shape1.same_size (ground (arith, cached)))
                                    short)),
                          )
                      | inr (new, table, bm2, e2, g) ↦
                          let seq1 : Sequence = record seq { block_table = table } in
                          let p1 : Pass = record p {
                            sched = record s { bm = bm2; seqs = write s.seqs id seq1 };
                          } in
                          let ok2 =
                            admitted-PassOk limit p id rest got.0 table got.2 bm2 got.1 n h e shape1
                              g
                              (Tame-trans tame1
                                (allocate_slots-Grown got.2 bm2 seq seq1 n got.0 (some new) 0 v1.ids
                                  hashed e2).0)
                              (Unfilled-hits got.2 bm2 seq got.0 table n bs v1
                                (g.shape.same_size ∙ shape1.same_size) h.well.valid.size_pos
                                wait.no_blocks hashed e2)
                              (ground arith) (ground arith) cached (ground arith) (ground arith) in
                          let (p3, e3, ok3, setup3, _) =
                            admit_lem rest (admitted p1 id rest seq1 got.1 n) ok2 refl in
                          let (joined, planned_id) =
                            Joined-admitted limit p id rest table bm2 got.1 n h e
                              (SameShape-trans shape1 g.shape) in
                          (
                            p3,
                            rw (open_now, some_new, goes, e2) e3,
                            ok3,
                            Joined-trans joined setup3,
                            inl (omega (arith, planned_id (ground arith), setup3.more id)),
                          )
                    ]
            ]
      ]
