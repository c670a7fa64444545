-- ===== src/Scheduler/Schedule.antt =====
-- pagedllm/scheduler.py: `Scheduler.schedule`.
use paged_llm.Base.{
  ℕ, zero, suc, ◌+◌, ◌-◌, List, [], ◌∷◌, ◌++◌, Bool, true, false, ◌&&◌, not, Option, none, some,
  if◌then◌else◌, ltb, leb, ◌==◌, length, contains, last?, Result, ok, raise, index_error,
  assertion_error, out_of_fuel, guard, or_raise, ◌>>=◌, ◌>>◌,
}
use paged_llm.Sequence.{
  Sequence, SequenceStatus, num_tokens, num_uncomputed_tokens, is_prefill_done,
}
use paged_llm.BlockManager.Slots.{allocate_slots}
use paged_llm.BlockManager.PrefixCache.{get_computed_blocks}
use paged_llm.Scheduler.{Scheduler, SchedulerOutput, new_scheduled, empty_output, write, preempt}

abbrev pub is_running : SequenceStatus → Bool
is_running SequenceStatus.running = true
is_running _ = false

-- The variables of `schedule`.
pub record Pass : Type 0 where
  pub sched : Scheduler
  pub out : SchedulerOutput
  pub budget : ℕ

-- `while True`: allocate, preempting from the tail. A round that fails preempts one running
-- sequence; the fuel is the number of running sequences and one more.
unfoldable pub make_room :
    ℕ → Scheduler → SchedulerOutput → ℕ → ℕ → Result (Scheduler × SchedulerOutput)
unfolding preempt
make_room zero s out id n = raise out_of_fuel
make_room (suc fuel) s out id n = do
  (granted, seq, bm) ← allocate_slots s.bm (s.seqs id) n []
  let s1 = record s { bm = bm; seqs = write s.seqs id seq }
  elim granted [
    | some _ ↦ ok (s1, out)
    | none ↦ do
      victim ← or_raise (last? s1.running) index_error
      (s2, out2) ← preempt s1 out victim
      elim (victim == id) [ true ↦ ok (s2, out2) | false ↦ make_room fuel s2 out2 id n ]
  ]

-- The budget cuts a prefill into chunks.
abbrev pub chunk : ℕ → ℕ → ℕ
chunk num_new budget = if ltb budget num_new then budget else num_new

-- A running sequence gets `n` tokens of the budget; a decode step is told from a prefill.
abbrev pub charge : Pass → ℕ → ℕ → Pass
charge p id n =
    let seq = p.sched.seqs id in
    let out = p.out in
    record p {
      budget = p.budget - n;
      out = record out {
        scheduled = out.scheduled ++ new_scheduled id seq n ∷ [];
        num_decode_tokens = out.num_decode_tokens + (if is_prefill_done seq then n else 0);
        num_prefill_tokens = out.num_prefill_tokens + (if is_prefill_done seq then 0 else n);
      };
    }

unfoldable pub schedule_running : Pass → ℕ → ℕ → Result Pass
unfolding make_room
schedule_running p id n = do
  (s1, out1) ← make_room (suc (length p.sched.running)) p.sched p.out id n
  let p1 : Pass = record p { sched = s1; out = out1 }
  if is_running (s1.seqs id).status then ok (charge p1 id n) else ok p1

-- The body of the loop over the running sequences, behind the test of the budget.
unfoldable pub visit_running : Pass → ℕ → Result Pass
unfolding schedule_running
visit_running p id = if contains id p.out.preempted then ok p else (do
  let num_new = num_uncomputed_tokens (p.sched.seqs id)
  guard (leb 1 num_new) assertion_error
  if ltb p.budget num_new && not p.sched.config.enable_chunked_prefill
      then ok p
      else schedule_running p id (chunk num_new p.budget))

unfoldable pub run_running : List ℕ → Pass → Result Pass
unfolding visit_running
run_running [] p = ok p
run_running (id ∷ ids) p =
    if p.budget == 0 then ok p else (do p' ← visit_running p id; run_running ids p')

-- A waiting sequence becomes a running one.
abbrev pub admitted : Pass → ℕ → List ℕ → Sequence → ℕ → ℕ → Pass
admitted p id rest seq num_cached n =
    let s = p.sched in
    let out = p.out in
    let seq' : Sequence = record seq {
      num_computed_tokens = num_cached;
      num_cached_tokens = num_cached;
      status = SequenceStatus.running;
    } in
    record {
      sched = record s {
        waiting = rest;
        seqs = write s.seqs id seq';
        running = s.running ++ id ∷ [];
      };
      budget = p.budget - n;
      out = record out {
        scheduled = out.scheduled ++ new_scheduled id seq' n ∷ [];
        num_prefill_tokens = out.num_prefill_tokens + n;
      };
    }

module _ (hash : Option ℕ → List ℕ → ℕ) where
  -- The loop over the waiting sequences; the list is the queue `waiting`.
  unfoldable pub admit : List ℕ → Pass → Result Pass
  admit [] p = ok p
  admit (id ∷ rest) p =
      let s = p.sched in
      let seq = s.seqs id in
      if ltb 0 p.budget && ltb (length s.running) s.config.max_num_seqs
      then (do
        let (computed, num_cached, bm1) = get_computed_blocks hash s.bm seq
        let num_new = num_tokens seq - num_cached
        guard (leb 1 num_new) assertion_error
        if ltb p.budget num_new && not s.config.enable_chunked_prefill
            then ok (record p { sched = record s { bm = bm1 } })
            else (do
              let n = chunk num_new p.budget
              (granted, seq1, bm2) ← allocate_slots bm1 seq n computed
              let p1 : Pass = record p {
                sched = record s { bm = bm2; seqs = write s.seqs id seq1 };
              }
              elim granted [
                | none ↦ ok p1
                | some _ ↦ admit rest (admitted p1 id rest seq1 num_cached n)
              ]))
      else ok p

  unfoldable pub schedule : Scheduler → Result (Scheduler × SchedulerOutput)
  unfolding run_running admit
  schedule s = do
    p ←
        run_running s.running
          (record { sched = s; out = empty_output; budget = s.config.max_num_batched_tokens })
    p' ← admit p.sched.waiting p
    ok (p'.sched, p'.out)
