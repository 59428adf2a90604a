-- ===== src/Store/Tests/Log.antt =====
-- Examples of the theorems about the log, the tables, the ring and the options.
use relaybox.Prelude.{
  ltb, select, pos, negsuc, ◌+◌, ◌<◌, ◌≤◌, ◌≡◌, refl, arith, Bytes, codes, some, [], ◌∷◌, ◌⊎◌, ◌++◌,
}
use relaybox.Store.Model.{Event}
use relaybox.Store.Errors.{Error, ok, err}
use relaybox.Store.Env.{Env}
use relaybox.Store.Options.{RawOptions, with_defaults, IsUsable, with_defaults-IsUsable}
use relaybox.Store.State.{Store}
use relaybox.Store.Apply.{apply}
use relaybox.Store.Append.{append, stamp}
use relaybox.Store.Append.Durable.{IsDurable}
use relaybox.Store.Append.Recovery.{append-IsDurable, append-recovers}
use relaybox.Store.Recover.{opened}
use relaybox.Store.Append.Durable.{recover-torn}
use relaybox.Store.Append.Outcome.{line_ref}
use relaybox.Store.Recover.{recover}
use relaybox.Store.Subscribe.{subscribe_from}
use relaybox.Store.Subscribe.CatchUp.{subscribe_from_complete, oversized_event_lost}
use relaybox.Store.Apply.Ring.{IsRing}
use relaybox.Store.Tests.{
  options, disk, capture, env, empty, runs, empty-IsDurable, capture-IsExact, one,
}

append-recovers_example :
    (t : Store) × (recover env empty.options (append env disk capture empty).1.at_path ≡ ok t)
    × ((t.image ≡ empty.image)
        ⊎ ((line : Bytes) × (t.image
              ≡ apply env empty.options
                  (stamp empty.seq disk.clock capture)
                  (line_ref empty (stamp empty.seq disk.clock capture) line)
                  empty.image)))
unfolding opened
append-recovers_example =
    append-recovers env disk capture empty empty-IsDurable capture-IsExact (omega arith)
      (omega arith)

appends : append env disk capture empty ≡ (ok (stamp 0 5 capture), one)
unfolding runs
appends = refl

append-IsDurable_example :
    IsDurable env one × (stamp 0 5 capture ≡ stamp empty.seq disk.clock capture)
unfolding opened
append-IsDurable_example =
    append-IsDurable env disk capture empty empty-IsDurable capture-IsExact (omega arith)
      (omega arith) (stamp 0 5 capture) one appends

recover-torn_example :
    (t : Store) × (recover env one.options (one.at_path ++ codes "x") ≡ ok t)
    × (t.image ≡ one.image)
    × (t.event_count ≡ one.event_count)
    × (t.file ≡ one.at_path)
recover-torn_example = recover-torn env one append-IsDurable_example.0 (codes "x") (omega arith, tt)

abbrev first : Event
first = stamp 0 5 capture

one-IsRing : IsRing env options (first ∷ []) one.image
unfolding runs
one-IsRing = record {
  counted = refl;
  few = omega arith;
  small = omega arith;
  gone = [];
  last_of = refl;
  rises = (tt, omega arith, tt);
}

one_ring : one.ring ≡ first ∷ []
unfolding runs
one_ring = refl

subscribe_from_complete_example :
    ((0 + 1 < first.seq) × (subscribe_from 0 one ≡ (err Error.event_backlog, one)))
    ⊎ ((first.seq ≤ 0 + 1)
        × ((subscribe_from 0 one).0
            ≡ ok (select (λ e. ltb 0 e.seq) (first ∷ []), one.next_channel)))
unfolding runs
subscribe_from_complete_example =
    subscribe_from_complete env (first ∷ []) one 0 first [] one-IsRing one_ring

-- An encoder whose lines are longer than the ring may hold.
abbrev wide : Env
wide = record env { encode = λ e. some (codes "too long!") }

empty-IsRing : IsRing wide options [] empty.image
unfolding opened
empty-IsRing = record {
  counted = refl;
  few = omega arith;
  small = omega arith;
  gone = [];
  last_of = refl;
  rises = tt;
}

abbrev after : Store
after = record empty {
  image =
      apply wide options (stamp 0 5 capture) (record { offset = 0; length = 10; seq = 1 })
        empty.image;
}

oversized_event_lost_example : (after.seq ≡ 1) × ((subscribe_from 0 after).0 ≡ ok ([], 0))
unfolding runs
oversized_event_lost_example =
    oversized_event_lost wide [] empty (stamp 0 5 capture)
      (record { offset = 0; length = 10; seq = 1 }) 0 empty-IsRing refl (omega arith)

abbrev negative : RawOptions
negative = record {
  max_captures = negsuc 4;
  max_events = pos 0;
  max_jobs_per_request = pos 3;
  max_attempts_per_job = pos 0;
  max_search_bytes = pos 0;
  max_search_scan = pos 5000;
  max_catch_up_events = pos 0;
  max_catch_up_bytes = pos 0;
  subscriber_backlog = pos 0;
}

with_defaults-IsUsable_example : IsUsable (with_defaults negative)
with_defaults-IsUsable_example = with_defaults-IsUsable negative
