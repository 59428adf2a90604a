-- ===== src/Store/Redact/Clean.antt =====
-- After a redaction that succeeds no header in memory needs one.
use relaybox.Prelude.{
  ℕ, ◌-◌, ◌≡◌, refl, ap, ◌∙◌, Text, Bytes, Bool, true, false, ◌==◌, Option, none, some, List, [],
  ◌∷◌, map, arith, Bool-cases, Option-cases, inl, inr,
}
use relaybox.Map.{Map}
use relaybox.Store.Model.{Header, Request, Attempt, Event}
use relaybox.Store.Errors.{Result, ok, err}
use relaybox.Store.Env.{Env}
use relaybox.Store.Options.{Options}
use relaybox.Store.Apply.{encoded_size, trim_ring}
use relaybox.Store.State.{Store, CompactDisk}
use relaybox.Store.Append.{compact, gate, Step}
use relaybox.Store.Append.Effect.{compact-SameRows}
use relaybox.Store.Append.Compaction.{ring-compact}
use relaybox.Store.Redact.{
  needs_redaction, redact, redact_request, redact_attempt, redact_event, request_needs,
  attempt_needs, any_request, any_attempt, any_attempts, any_event, tables_need, redact_tables,
  ring_bytes_of, recount_ring, log_needs, failed_step, redact_memory, redact_log, redact_open,
  redact_headers,
}

module _ (sensitive : Text → Bool) where
  redact-clean : (h : Header) → needs_redaction sensitive (redact sensitive h) ≡ false
  unfolding needs_redaction redact ◌==◌
  redact-clean [] = refl
  redact-clean ((name, values) ∷ h) = ground (arith, redact-clean h)

  requests-clean :
      (m : Map Request)
      → any_request sensitive (map (λ e. (e.0, redact_request sensitive e.1)) m) ≡ false
  unfolding any_request redact_request
  requests-clean [] = refl
  requests-clean ((id, r) ∷ m) = ground (arith, redact-clean r.headers, requests-clean m)

  attempt-clean :
      (l : List Attempt) → any_attempt sensitive (map (redact_attempt sensitive) l) ≡ false
  unfolding any_attempt redact_attempt
  attempt-clean [] = refl
  attempt-clean (a ∷ l) = ground (arith, redact-clean a.response_headers, attempt-clean l)

  attempts-clean :
      (m : Map (List Attempt))
      → any_attempts sensitive (map (λ e. (e.0, map (redact_attempt sensitive) e.1)) m) ≡ false
  unfolding any_attempts
  attempts-clean [] = refl
  attempts-clean ((id, l) ∷ m) = ground (arith, attempt-clean l, attempts-clean m)

  request_needs-clean :
      (o : Option Request)
      → request_needs sensitive
          (elim o [ none ↦ none | some r ↦ some (redact_request sensitive r) ])
        ≡ false
  unfolding request_needs redact_request
  request_needs-clean none = refl
  request_needs-clean (some r) = redact-clean r.headers

  attempt_needs-clean :
      (o : Option Attempt)
      → attempt_needs sensitive
          (elim o [ none ↦ none | some a ↦ some (redact_attempt sensitive a) ])
        ≡ false
  unfolding attempt_needs redact_attempt
  attempt_needs-clean none = refl
  attempt_needs-clean (some a) = redact-clean a.response_headers

  events-clean : (l : List Event) → any_event sensitive (map (redact_event sensitive) l) ≡ false
  unfolding any_event redact_event
  events-clean [] = refl
  events-clean (e ∷ l) =
      ground (arith, request_needs-clean e.request, attempt_needs-clean e.attempt, events-clean l)

  trim-clean :
      (env : Env) (o : Options) (l : List Event) (bytes : ℕ)
      → any_event sensitive l ≡ false
      → any_event sensitive (trim_ring env o l bytes).0 ≡ false
  unfolding trim_ring any_event
  trim-clean env o [] bytes h = refl
  trim-clean env o (e ∷ l) bytes h =
      ground (arith, h, trim-clean env o l (bytes - encoded_size env e))

  memory-clean :
      (env : Env) (s : Store) → tables_need sensitive (redact_memory env sensitive s).tables ≡ false
  unfolding tables_need redact_memory recount_ring redact_tables
  memory-clean env s =
      let ring = map (redact_event sensitive) s.ring in
      ground (
        arith,
        requests-clean s.requests,
        attempts-clean s.attempts,
        trim-clean env s.options ring (ring_bytes_of env ring) (events-clean s.ring),
      )

  tables_need-compact :
      (env : Env) (d : CompactDisk) (s : Store)
      → tables_need sensitive (compact env d s).1.tables ≡ tables_need sensitive s.tables
  unfolding tables_need
  tables_need-compact env d s =
      let same = compact-SameRows env d s in rw (same.requests, same.attempts, ring-compact env d s)

  failed_step_lem : (r : Step) (s' : Store) → failed_step r ≡ (none, s') → r.1 ≡ s'
  unfolding failed_step
  failed_step_lem (none, s) s' h = cc
  failed_step_lem (some x, s) s' h = cc

  log-clean :
      (env : Env) (decode : Bytes → Option (List Header)) (d : CompactDisk) (s s' : Store)
      (r : Result Bool)
      → tables_need sensitive s.tables ≡ false
      → redact_log env decode d sensitive s r ≡ (none, s')
      → tables_need sensitive s'.tables ≡ false
  unfolding redact_log
  log-clean env decode d s s' (err x) clean h = cc
  log-clean env decode d s s' (ok false) clean h =
      let same : s ≡ s' = ap (λ (r : Step). r.1) h in rw (← same) clean
  log-clean env decode d s s' (ok true) clean h =
      rw (← failed_step_lem (compact env d s) s' h) (tables_need-compact env d s ∙ clean)

  -- After a redaction that reports no error, `tables_need` finds nothing: of the requests, of the
  -- attempts and of the events in the catch-up ring, every header under a name that the policy calls
  -- sensitive shows the marker of redaction and nothing else.
  pub redact_headers-clean :
      (env : Env) (decode : Bytes → Option (List Header)) (d : CompactDisk) (s s' : Store)
      → redact_headers env decode d sensitive s ≡ (none, s')
      → tables_need sensitive s'.tables ≡ false
  unfolding redact_headers redact_open
  redact_headers-clean env decode d s s' h = elim (Option-cases (gate s)) [
    | inr (x, shut) ↦ absurd (ground (arith, shut, ap (λ (r : Step). r.0) h))
    | inl open_ ↦ elim (Bool-cases (tables_need sensitive s.tables)) [
      | inr clean ↦
          log-clean env decode d s s' (log_needs sensitive decode [] s.file) clean
            (rw (open_, clean, redact_headers, redact_open) at h)
      | inl dirty ↦
          let m = redact_memory env sensitive s in
          rw
            (← failed_step_lem (compact env d m) s'
              (rw (open_, dirty, redact_headers, redact_open) at h))
            (tables_need-compact env d m ∙ memory-clean env s)
    ]
  ]
