-- ===== src/App/Forward/Settled.antt =====
-- What `App.forward` makes of a job whose attempt the store takes, and of one whose lease is lost.
use relaybox.Prelude.{
  ℕ, ◌+◌, ◌≤◌, ◌<◌, ◌≡◌, ◌⊎◌, inl, inr, refl, ap, ◌∙◌, Text, Bool, true, none, some, List, [],
  arith,
}
use relaybox.Map.{get}
use relaybox.Store.Model.{Request, Attempt, Job, State, retrying, terminal_state}
use relaybox.Store.Errors.{ok}
use relaybox.Store.Env.{Env}
use relaybox.Store.Apply.Sound.{IsSound}
use relaybox.Store.State.{Store}
use relaybox.Store.Jobs.{settle_job, result_state}
use relaybox.Store.Jobs.Attempts.{IsRecorded, record_attempt-IsRecorded}
use relaybox.Store.Queries.{load}
use relaybox.Store.Subscribe.{attempts_for_job}
use relaybox.App.Retry.Bounds.{IsVerdict, verdict-IsVerdict}
use relaybox.App.Forward.{
  Settings, World, Learnt, outgoing, try_once, verdict_of, attempt_of, record_learnt, forward,
  forward_loaded, forward_as, attempt_request, is_retrying, sent_to, settled, is_some,
}

-- The job after an attempt that has been recorded: finished, or with attempts left and due soon.
pub record IsSettled (c : Settings) (w : World) (id : Text) (n : ℕ) (state : State) (s : Store)
    : Type 0 where
  pub job : Job
  pub found : get id s.jobs ≡ some job
  pub reached : job.state ≡ state
  pub released : job.lease_owner ≡ []
  pub ends :
      (terminal_state job.state ≡ true)
      ⊎ ((job.state ≡ retrying)
          × (n < c.attempts)
          × (job.available_at ≤ w.finished + c.max_backoff))

terminal_or_retrying :
    (state : State) → result_state state ≡ true → (terminal_state state ≡ true) ⊎ (state ≡ retrying)
unfolding result_state terminal_state
terminal_or_retrying retrying h = inr refl
terminal_or_retrying state h = ground arith

IsRecorded-IsSettled :
    {id owner : Text} {a : Attempt} {state : State} {message : Text} {available_at now : ℕ}
    {s s' : Store} (c : Settings) (w : World) (n status : ℕ) (failed : Bool)
    → IsRecorded id owner a state message available_at now s s'
    → IsVerdict c.attempts c.max_backoff n failed status w.finished state available_at
    → IsSettled c w id n state s'
unfolding settle_job
IsRecorded-IsSettled {state = state} {message = message} {available_at = at} {now = now} c w n
      status failed r v =
    record {
      job = settle_job state message now at r.job;
      found = r.settled;
      reached = refl;
      released = refl;
      ends = elim (terminal_or_retrying state r.result) [
        | inl over ↦ inl over
        | inr again ↦ inr (again, (v.repeats.0 again).1, v.soon again)
      ];
    }

module _ (env : Env) (c : Settings) (w : World) (owner : Text) (j : Job) (req : Request)
    (attempts : List Attempt) (id : Text) (s s₁ : Store)
    (loads : load env j.request_id s ≡ (ok (some (req, attempts)), s₁))
    (has_id : w.new_id ≡ some id) where
  abbrev number : ℕ
  number = attempts_for_job j.id s₁ + 1

  abbrev learnt : Learnt
  learnt = try_once c w (outgoing c req j)

  forward-loaded :
      forward env c w owner j s
      ≡ settled w
          (outgoing c req j)
          (verdict_of c w j number learnt).state
          (record_learnt env c w owner j req id number learnt (w.meanwhile s₁))
  unfolding forward forward_loaded forward_as attempt_request
  forward-loaded =
      ap (forward_loaded env c w owner j) loads ∙ ap (forward_as env c w owner j req s₁) has_id

  module _ (v : IsSound (w.meanwhile s₁).tables) (s' : Store)
      (takes : record_learnt env c w owner j req id number learnt (w.meanwhile s₁)
        ≡ (none, s')) where
    -- Where the attempt is recorded, on sound tables, the job has given up its lease and is in the
    -- state of the verdict: it is finished, or it is to be retried, and then the number of the
    -- attempt was less than the limit and the next is due at most the largest backoff after the
    -- end of this one. A worker is woken exactly where the verdict is to retry.
    pub forward-IsSettled :
        (forward env c w owner j s ≡ record {
          store = s';
          sent = sent_to w (outgoing c req j);
          wakes = is_retrying (verdict_of c w j number learnt).state;
        })
        × IsSettled c w j.id number (verdict_of c w j number learnt).state s'
    unfolding record_learnt settled verdict_of
    forward-IsSettled = (
      forward-loaded
          ∙ ap (settled w (outgoing c req j) (verdict_of c w j number learnt).state) takes,
      IsRecorded-IsSettled c w number learnt.status (is_some learnt.error)
          (record_attempt-IsRecorded env w.disk w.clock j.id owner
            (attempt_of w req id j number learnt) (verdict_of c w j number learnt).state
            (verdict_of c w j number learnt).message (verdict_of c w j number learnt).available_at
            (w.meanwhile s₁) v s' takes)
          (verdict-IsVerdict c.attempts c.max_backoff number (is_some learnt.error) learnt.status
            learnt.retry (w.backoff j.id number) w.finished),
    )
