-- ===== src/Scheduler/Visit.antt =====
-- pagedllm/scheduler.py: the variables of `schedule`, and what a visit of a running sequence leaves.
use paged_llm.Base.{
  ◌⊎◌, ℕ, ◌+◌, ◌<◌, ◌≤◌, ◌≡◌, List, [], ◌∷◌, ◌++◌, true, false, length, count, contains, arith,
  Result, ok,
}
use paged_llm.Scheduler.{ScheduledSequence, total_tokens}
use paged_llm.Scheduler.Schedule.{Pass}
use paged_llm.Scheduler.Invariant.{planned, IsWell}
use paged_llm.Scheduler.Order.{Moved, Moved-refl, Moved-trans}
use paged_llm.Scheduler.Cramped.{Cramped}

-- The tokens of all items.
abbrev pub sum_new : List ScheduledSequence → ℕ
sum_new [] = 0
sum_new (i ∷ is) = i.num_new_tokens + sum_new is

pub sum_new-append : (xs ys : List ScheduledSequence) → sum_new (xs ++ ys) ≡ sum_new xs + sum_new ys
sum_new-append [] ys = omega arith
sum_new-append (x ∷ xs) ys = omega (arith, sum_new-append xs ys)

-- The variables of `schedule` fit together: `limit` is the budget of the whole step.
pub record PassOk (limit : ℕ) (p : Pass) : Type 0 where
  pub well : IsWell p.sched p.out.scheduled
  pub spent : p.budget + total_tokens p.out ≡ limit
  pub summed : sum_new p.out.scheduled ≡ total_tokens p.out

-- The state of the loop: of the sequences still to visit, `keep` are running and have no item, and
-- `drop` have been preempted.
pub record Between (limit : ℕ) (p : Pass) (done keep drop : List ℕ) : Type 0 where
  pub pass : PassOk limit p
  pub order : p.sched.running ≡ done ++ keep
  pub unplanned : (j : ℕ) → 0 < count j keep → planned j p.out.scheduled ≡ 0
  pub dropped : (j : ℕ) → 0 < count j drop → 0 < count j p.out.preempted

-- The loop goes on: what is planned stays planned.
pub record Later (p p' : Pass) : Type 0 where
  pub moved : Moved p.sched p'.sched
  pub more : (j : ℕ) → planned j p.out.scheduled ≤ planned j p'.out.scheduled

pub Later-refl : (p : Pass) → Later p p
Later-refl p = record { moved = Moved-refl p.sched; more = λ j. omega arith }

pub Later-trans : {p q r : Pass} → Later p q → Later q r → Later p r
Later-trans a b = record {
  moved = Moved-trans a.moved b.moved;
  more = λ j. omega (arith, a.more j, b.more j);
}

-- Why a visited sequence gets no tokens: it has been preempted, or the budget is short of its tokens
-- and prefills are not cut, or the pool is short, with others before it or too small for it alone.
pub data PassedOver (p p' : Pass) (id : ℕ) (done : List ℕ) : Type 0 where
  was_preempted : contains id p.out.preempted ≡ true → PassedOver p p' id done
  no_chunks : p.sched.config.enable_chunked_prefill ≡ false → PassedOver p p' id done
  no_room : (0 < length done) ⊎ Cramped p'.sched id → PassedOver p p' id done

abbrev pub Outcome : Pass → Pass → ℕ → List ℕ → Type 0
Outcome p p' id done = (0 < planned id p'.out.scheduled) ⊎ PassedOver p p' id done

-- A visit of one sequence, with `ids` to visit after it.
abbrev pub Visited : ℕ → Pass → ℕ → List ℕ → List ℕ → Result Pass → Type 0
Visited limit p id before ids r =
    (p' : Pass) × (done : List ℕ) × (keep : List ℕ) × (drop : List ℕ) × (r ≡ ok p')
    × Later p p'
    × (ids ≡ keep ++ drop)
    × Between limit p' done keep drop
    × Outcome p p' id before
