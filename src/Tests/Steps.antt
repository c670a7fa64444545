-- ===== src/Tests/Steps.antt =====
-- The theorems on the scheduler, at concrete schedulers, and runs of its steps.
use paged_llm.Base.{
  ◌<◌, ℕ, ◌+◌, ◌≤◌, ◌≡◌, ◌⊎◌, refl, List, [], ◌∷◌, lookup, Dict, ok, raise, value_error, arith,
}
use paged_llm.Sequence.{num_prompt_tokens}
use paged_llm.BlockManager.PrefixCache.{get_computed_blocks}
use paged_llm.BlockManager.Slots.{allocate_slots}
use paged_llm.Scheduler.{Scheduler, SchedulerOutput, empty_output, total_tokens, add}
use paged_llm.Scheduler.Schedule.{schedule, make_room}
use paged_llm.Scheduler.Update.{update}
use paged_llm.Scheduler.Invariant.{IsWell}
use paged_llm.Scheduler.Preempt.{SameSetup}
use paged_llm.Scheduler.Eviction.{Made, make_room_lem}
use paged_llm.Scheduler.Visit.{sum_new}
use paged_llm.Scheduler.Plan.{schedule_total, schedule-line, schedule_serves}
use paged_llm.Scheduler.Retire.{Finished}
use paged_llm.Scheduler.Progress.{update_total}
use paged_llm.Scheduler.Requests.{TooLong, max_tokens_of, add_total}
use paged_llm.Scheduler.Limits.{add-shared}
use paged_llm.Scheduler.Order.{line}
use paged_llm.Scheduler.Invariant.{planned}
use paged_llm.Tests.Data.{demo_hash, busy, busy-IsWell, scheduled, scheduled-IsWell, item}

schedule_example :
    (s' : Scheduler) × (out : SchedulerOutput) × (schedule demo_hash busy ≡ ok (s', out))
    × IsWell s' out.scheduled
    × SameSetup busy s'
    × (total_tokens out ≤ 4)
    × (sum_new out.scheduled ≡ total_tokens out)
schedule_example = schedule_total demo_hash busy busy-IsWell

abbrev output : SchedulerOutput
output = record empty_output { scheduled = item ∷ []; num_prefill_tokens = 1 }

abbrev tokens : Dict
tokens = (0, 2) ∷ []

schedule-line_example :
    (s' : Scheduler) × (out : SchedulerOutput) × (schedule demo_hash busy ≡ ok (s', out))
    × (line s' ≡ 0 ∷ 1 ∷ [])
    × ((j : ℕ) → (s'.seqs j).token_ids ≡ (busy.seqs j).token_ids)
schedule-line_example = schedule-line demo_hash busy busy-IsWell

schedule_serves_example :
    (s' : Scheduler) × (out : SchedulerOutput) × (schedule demo_hash busy ≡ ok (s', out))
    × (0 < planned 0 out.scheduled)
    × (4 ≤ (s'.seqs 0).num_computed_tokens)
schedule_serves_example =
    schedule_serves demo_hash busy 0 (1 ∷ []) busy-IsWell refl (omega arith) (omega arith) refl
      (omega arith)

update_example :
    (s' : Scheduler) × (finished : List ℕ) × (update demo_hash tokens scheduled output
      ≡ ok (s', finished))
    × IsWell s' []
    × SameSetup scheduled s'
    × Finished s' finished
unfolding lookup
update_example =
    update_total demo_hash tokens scheduled output scheduled-IsWell (λ asks. (2, refl), tt)

add_example :
    (TooLong busy 5 × (add busy 5 ≡ raise value_error))
    ⊎ ((s' : Scheduler) × (add busy 5 ≡ ok s')
        × (¬ TooLong busy 5)
        × IsWell s' []
        × (s'.waiting ≡ 1 ∷ 5 ∷ [])
        × (s'.running ≡ 0 ∷ [])
        × (num_prompt_tokens (s'.seqs 5) + max_tokens_of s' 5 ≤ 16))
add_example = add_total busy 5 busy-IsWell (record {
  not_running = refl;
  not_waiting = refl;
  prompt_only = refl;
  some_prompt = omega arith;
  no_blocks = refl;
  no_computed = refl;
})

add-shared_example :
    (s' : Scheduler) × (add busy 5 ≡ ok s')
    × (num_prompt_tokens (busy.seqs 5) + max_tokens_of s' 0 ≤ 16)
add-shared_example = add-shared busy 5 0 (λ t. ground arith) refl

make_room_example : Made [] 0 1 [] busy empty_output [] (make_room 1 busy empty_output 0 1)
make_room_example =
    make_room_lem [] 0 1 [] 1 busy empty_output [] (omega arith) busy-IsWell refl refl (λ j h. refl)
      (omega arith) (omega arith)

-- The running sequence takes a block for its last token; the waiting one finds no room.
schedule_runs :
    (s' : Scheduler) × (schedule demo_hash busy
      ≡ ok (s', record empty_output { scheduled = item ∷ []; num_prefill_tokens = 1 }))
unfolding schedule get_computed_blocks allocate_slots
schedule_runs = (_, refl)
