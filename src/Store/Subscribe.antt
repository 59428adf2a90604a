-- ===== src/Store/Subscribe.antt =====
-- `SubscribeFrom` of internal/store/store.go, its `cancel`, and the queries on jobs.
pub mod CatchUp
use relaybox.Prelude.{
  ℕ, suc, ◌-◌, Text, Bool, true, false, not, ◌&&◌, ◌==◌, List, [], ◌∷◌, select, map, ltb, nat_eq,
  if◌then◌else◌,
}
use relaybox.Prelude.Sort.{sort}
use relaybox.Map.{values}
use relaybox.Store.Model.{Attempt, Job, Event, terminal_state}
use relaybox.Store.Errors.{Error, Result, ok, err}
use relaybox.Store.State.{Store, Channel}

-- The cursor lies before the ring and something between them is gone.
unfoldable pub too_old : List Event → ℕ → Bool
too_old [] seq = false
too_old (oldest ∷ ring) seq = ltb seq oldest.seq && ltb 1 (oldest.seq - seq)

abbrev add_channel : Store → Store
add_channel s = record s {
  channels = record { id = s.next_channel; queue = []; is_open = true } ∷ s.channels;
  next_channel = suc s.next_channel;
}

-- The events of the ring behind the cursor, and the number of the new subscriber's channel.
unfoldable pub subscribe_from : ℕ → Store → Result (List Event × ℕ) × Store
subscribe_from seq s =
    if too_old s.ring seq
    then (err Error.event_backlog, s)
    else (ok (select (λ e. ltb seq e.seq) s.ring, s.next_channel), add_channel s)

close_channel : ℕ → Channel → Channel
close_channel id ch = if nat_eq ch.id id then record ch { is_open = false } else ch

-- The function `cancel` that a subscriber gets.
pub cancel : ℕ → Store → Store
cancel id s = record s { channels = map (close_channel id) s.channels }

-- `Close`
pub close : Store → Store
close s = if s.is_closed then s else record s {
  is_closed = true;
  channels = map (λ (ch : Channel). record ch { is_open = false }) s.channels;
}

unfoldable pub unfinished_jobs : Store → List Job
unfinished_jobs s =
    sort (λ a b. ltb a.created_at b.created_at)
      (select (λ j. not (terminal_state j.state)) (values s.jobs))

abbrev pub max_number : Text → List Attempt → ℕ → ℕ
max_number id [] n = n
max_number id (a ∷ rest) n =
    max_number id rest (if a.job_id == id && ltb n a.number then a.number else n)

unfoldable pub max_numbers : Text → List (List Attempt) → ℕ → ℕ
max_numbers id [] n = n
max_numbers id (attempts ∷ rest) n = max_numbers id rest (max_number id attempts n)

-- `AttemptsForJob`: the largest number among the attempts of the job, over all requests.
unfoldable pub attempts_for_job : Text → Store → ℕ
unfolding max_numbers
attempts_for_job id s = max_numbers id (values s.attempts) 0
