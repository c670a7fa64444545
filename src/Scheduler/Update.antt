-- ===== src/Scheduler/Update.antt =====
-- pagedllm/scheduler.py: `Scheduler.update`.
use paged_llm.Base.{
  ℕ, ◌+◌, List, [], ◌∷◌, ◌++◌, Bool, false, ◌&&◌, ◌||◌, not, Option, none, some, if◌then◌else◌, leb,
  ◌==◌, contains, remove, lookup, Dict, Result, ok, key_error, value_error, or_raise, ◌>>=◌,
}
use paged_llm.Sequence.{
  Sequence, SequenceStatus, num_tokens, num_generated_tokens, append_token, is_finished,
}
use paged_llm.BlockManager.Slots.{free}
use paged_llm.BlockManager.PrefixCache.{cache_full_blocks}
use paged_llm.Scheduler.{Scheduler, SchedulerOutput, ScheduledSequence, write}

-- `token == self.eos_token_id`
abbrev pub is_eos : Option ℕ → ℕ → Bool
is_eos none token = false
is_eos (some e) token = token == e

-- The status after a token is appended: `seq` has it already.
unfoldable pub status_after : Scheduler → Sequence → ℕ → SequenceStatus
status_after s seq token =
    let sp = s.params seq.sampling_params in
    if (not sp.ignore_eos && is_eos s.eos_token_id token) || contains token sp.stop_token_ids
    then SequenceStatus.finished_stopped
    else if leb sp.max_tokens (num_generated_tokens seq)
        || leb s.config.max_model_len (num_tokens seq)
    then SequenceStatus.finished_length
    else seq.status

-- `self.running.remove(seq); self.bm.free(seq); finished_now.append(seq)`
unfoldable pub retire : Scheduler → List ℕ → ℕ → Result (Scheduler × List ℕ)
unfolding free remove
retire s finished_now id = do
  running ← remove value_error id s.running
  (seq, bm) ← free s.bm (s.seqs id)
  ok (record s { running = running; bm = bm; seqs = write s.seqs id seq }, finished_now ++ id ∷ [])

module _ (hash : Option ℕ → List ℕ → ℕ) (sampled : Dict) where
  -- A sampled token is appended, and may finish the sequence.
  unfoldable pub take_token : Scheduler → List ℕ → ℕ → Result (Scheduler × List ℕ)
  unfolding status_after retire lookup
  take_token s finished_now id = do
    token ← or_raise (lookup id sampled) key_error
    let seq = append_token (s.seqs id) token
    let seq' : Sequence = record seq { status = status_after s seq token }
    let s' = record s { seqs = write s.seqs id seq' }
    if is_finished seq' then retire s' finished_now id else ok (s', finished_now)

  unfoldable pub update_item : Scheduler → List ℕ → ScheduledSequence → Result (Scheduler × List ℕ)
  unfolding take_token
  update_item s finished_now item = do
    let seq = s.seqs item.seq
    let before = seq.num_computed_tokens
    let seq' = record seq { num_computed_tokens = before + item.num_new_tokens }
    bm ← cache_full_blocks hash s.bm seq' before seq'.num_computed_tokens
    let s' = record s { bm = bm; seqs = write s.seqs item.seq seq' }
    if item.needs_sampling then take_token s' finished_now item.seq else ok (s', finished_now)

  unfoldable pub update_items :
      List ScheduledSequence → Scheduler → List ℕ → Result (Scheduler × List ℕ)
  unfolding update_item
  update_items [] s finished_now = ok (s, finished_now)
  update_items (item ∷ items) s finished_now = do
    (s', finished') ← update_item s finished_now item
    update_items items s' finished'

  unfoldable pub update : Scheduler → SchedulerOutput → Result (Scheduler × List ℕ)
  unfolding update_items
  update s out = do
    (s', finished_now) ← update_items out.scheduled s []
    ok (record s' { finished = s'.finished ++ finished_now }, finished_now)
