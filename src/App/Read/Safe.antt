-- ===== src/App/Read/Safe.antt =====
-- What the readers send: redacted, in order and within bounds.
use relaybox.Prelude.{
  ℕ, ◌≤◌, ◌<◌, ◌≡◌, refl, ap, inl, inr, Text, true, Option, none, some, List, [], ◌∷◌, All, map,
  length, drop, length-take, ltb, arith, Bool-cases,
}
use relaybox.Map.{TextSet}
use relaybox.Prelude.Try.{Try, bad, good}
use relaybox.Store.Model.{Header, Request, Attempt, Event}
use relaybox.Store.Errors.{Result, ok, err}
use relaybox.Store.Env.{Env}
use relaybox.Store.State.{Store}
use relaybox.Store.Queries.{load, list_summaries, matching}
use relaybox.App.Headers.{
  sensitive_header, redacted, redact_with_policy, sanitize_request, sanitize_attempt,
  sanitize_event,
}
use relaybox.App.Read.{parse_bounded, list_requests, Page, Failure, show, shown, sent_live}

-- Each header with a sensitive name shows the marker alone.
pub IsClean : TextSet → Header → Type 0
IsClean policy h =
    All (λ (e : Text × List Text). sensitive_header e.0 policy ≡ true → e.1 ≡ redacted ∷ []) h

redact_with_policy-IsClean :
    (policy : TextSet) (h : Header) → IsClean policy (redact_with_policy policy h)
unfolding IsClean redact_with_policy
redact_with_policy-IsClean policy [] = tt
redact_with_policy-IsClean policy ((name, values) ∷ h) =
    ((λ e. rw e refl), redact_with_policy-IsClean policy h)

attempts-IsClean :
    (policy : TextSet) (l : List Attempt)
    → All (λ a. IsClean policy a.response_headers) (map (sanitize_attempt policy) l)
unfolding sanitize_attempt
attempts-IsClean policy [] = tt
attempts-IsClean policy (a ∷ l) =
    (redact_with_policy-IsClean policy a.response_headers, attempts-IsClean policy l)

value_or {ℓ} : {A : Type ℓ} → A → Try Failure A → A
value_or a (bad e) = a
value_or a (good b) = b

abbrev answer {ℓ} : {A : Type ℓ} → A → Try Failure A
answer a = good a

good-injective {ℓ} : {A : Type ℓ} {a b : A} → answer a ≡ answer b → a ≡ b
unfolding value_or
good-injective {a = a} h = ap (value_or a) h

shown-IsClean :
    (policy : TextSet) (x : Result (Option (Request × List Attempt)) × Store) (r : Request)
    (attempts : List Attempt)
    → (shown policy x).0 ≡ good (r, attempts)
    → IsClean policy r.headers × All (λ a. IsClean policy a.response_headers) attempts
unfolding shown sanitize_request
shown-IsClean policy (err x, s) r attempts h = cc
shown-IsClean policy (ok none, s) r attempts h = cc
shown-IsClean policy (ok (some (q, l)), s) r attempts h =
    let same = good-injective h in
    (
      rw (← ap (λ x. x.0) same) (redact_with_policy-IsClean policy q.headers),
      rw (← ap (λ x. x.1) same) (attempts-IsClean policy l),
    )

-- What `get` answers with shows the marker alone for each sensitive header, of the capture and of
-- the responses to its attempts, whatever is stored.
pub show-IsClean :
    (env : Env) (policy : TextSet) (id : Text) (s : Store) (r : Request) (attempts : List Attempt)
    → (show env policy id s).0 ≡ good (r, attempts)
    → IsClean policy r.headers × All (λ a. IsClean policy a.response_headers) attempts
unfolding show
show-IsClean env policy id s = shown-IsClean policy (load env id s)

parse_bounded-le :
    (s : Text) (def lo hi : ℕ)
    → lo ≤ def
    → def ≤ hi
    → (lo ≤ parse_bounded s def lo hi) × (parse_bounded s def lo hi ≤ hi)
unfolding parse_bounded
parse_bounded-le s def lo hi h k = ground arith

-- A page of the list has at most 200 captures, and begins at most a million in, whatever the query
-- asks for.
pub page-bounds :
    (q limit offset : Text) (s : Store) (p : Page)
    → list_requests q limit offset s ≡ good p
    → (length p.items ≤ 200) × (p.offset ≤ 1000000)
unfolding list_requests list_summaries
page-bounds q limit offset s p h = elim (Bool-cases (ltb 256 (length q))) [
  | inl long ↦ absurd (ground (arith, rw long at h))
  | inr fits ↦
      let same = good-injective (rw fits at h) in
      let from = parse_bounded offset 0 0 1000000 in
      let size = parse_bounded limit 50 1 200 in
      rw (← same) (
        omega (
          arith,
          length-take size (drop from (matching s q)),
          (parse_bounded-le limit 50 1 200 (omega arith) (omega arith)).1,
        ),
        (parse_bounded-le offset 0 0 1000000 (omega arith) (omega arith)).1,
      )
]

-- Every event in the list comes behind the cursor, and behind those before it.
pub IsIncreasing : ℕ → List Event → Type 0
IsIncreasing seq [] = Unit
IsIncreasing seq (e ∷ l) = (seq < e.seq) × IsIncreasing e.seq l

-- What a subscriber is sent from its channel, whatever order the channel delivers in, has strictly
-- increasing sequence numbers, all behind the last event that it was sent before.
pub sent_live-IsIncreasing :
    (policy : TextSet) (seq : ℕ) (l : List Event) → IsIncreasing seq (sent_live policy seq l)
unfolding sent_live IsIncreasing sanitize_event
sent_live-IsIncreasing policy seq [] = tt
sent_live-IsIncreasing policy seq (e ∷ l) = elim (Bool-cases (ltb seq e.seq)) [
  | inl fresh ↦
      rw (fresh, sent_live, IsIncreasing)
        (ground (arith, fresh), sent_live-IsIncreasing policy e.seq l)
  | inr stale ↦ rw (stale, sent_live) (sent_live-IsIncreasing policy seq l)
]
