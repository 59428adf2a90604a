-- ===== src/Store/Queries/Load.antt =====
-- What `Load` returns.
use relaybox.Prelude.{
  ◌≡◌, ap, ◌∙◌, text_eq_iff, Text, Bytes, some, List, [], ◌∷◌, map, arith, Option-cases, inl, inr,
  ◌==◌, Bool-cases,
}
use relaybox.Map.{get}
use relaybox.Store.Model.{Request, Attempt, Event}
use relaybox.Store.Errors.{Result, ok, err, >>=-eq-ok}
use relaybox.Store.Env.{Env}
use relaybox.Store.Tables.{Tables, get_list}
use relaybox.Store.Validate.{validate_request_digest}
use relaybox.Store.State.{Store}
use relaybox.Store.Compact.{ref_at, read_event_at, stored_response}
use relaybox.Store.Queries.{load_amid, loaded, read_capture, load_attempts, body_of}

-- An attempt as the tables keep it, without its response.
abbrev pub bare : Attempt → Attempt
bare a = record a { response_body = [] }

stored_response-bare : (a b : Attempt) (e : Event) → stored_response a e ≡ ok b → bare b ≡ bare a
unfolding stored_response
stored_response-bare a b e h = elim (Option-cases e.attempt) [
  | inl absent ↦ absurd (ground (arith, absent, h))
  | inr (c, here) ↦ elim (Bool-cases (c.id == a.id)) [
    | inr other ↦ absurd (ground (arith, here, other, h))
    | inl match ↦
        let same : record a { response_body = c.response_body } ≡ b =
          ground (arith, here, match, h) in
        rw (← same)
  ]
]

load_attempts-bare :
    (env : Env) (file : Bytes) (t : Tables) (l l' : List Attempt)
    → load_attempts env file t l ≡ ok l'
    → map bare l' ≡ map bare l
unfolding load_attempts
load_attempts-bare env file t [] l' h = ground arith
load_attempts-bare env file t (a ∷ rest) l' h =
    let (e, read, more) = >>=-eq-ok (read_event_at env file (ref_at a.id t.attempt_record)) _ h in
    let (b, kept, last) = >>=-eq-ok (stored_response a e) _ more in
    let (others, loads, all) = >>=-eq-ok (load_attempts env file t rest) _ last in
    let same : (b ∷ others) ≡ l' = ground (arith, all) in
    rw (← same, stored_response-bare a b e kept, load_attempts-bare env file t rest others loads)

-- The event holds the request `id` with the body `b` and the digest of that body.
pub record HasBody (env : Env) (id : Text) (b : Bytes) (e : Event) : Type 0 where
  pub request : Request
  pub holds : e.request ≡ some request
  pub same_id : request.id ≡ id
  pub same_body : request.body ≡ b
  pub exact : request.body_sha256 ≡ env.digest b

body_of-HasBody :
    (env : Env) (id : Text) (b : Bytes) (e : Event) → body_of env id e ≡ ok b → HasBody env id b e
unfolding body_of validate_request_digest
body_of-HasBody env id b e h = elim (Option-cases e.request) [
  | inl absent ↦ absurd (ground (arith, absent, h))
  | inr (q, here) ↦ elim (Bool-cases (q.id == id)) [
    | inr other ↦ absurd (ground (arith, here, other, h))
    | inl match ↦ elim (Bool-cases (q.body_sha256 == env.digest q.body)) [
      | inr wrong ↦ absurd (ground (arith, here, match, wrong, h))
      | inl right ↦
          let same : q.body ≡ b = ground (arith, here, match, right, h) in
          record {
            request = q;
            holds = here;
            same_id = (text_eq_iff q.id id).0 match;
            same_body = same;
            exact = (text_eq_iff q.body_sha256 (env.digest q.body)).0 right ∙ ap env.digest same;
          }
    ]
  ]
]

-- What a capture looks like that `Load` returns: its row in the tables with the body filled in
-- that its record in the file holds, and its attempts in their order, each with a response filled
-- in.
pub record IsLoaded (env : Env) (id : Text) (r : Request) (l : List Attempt) (s after s' : Store)
    : Type 0 where
  pub row : Request
  pub found : get id s.requests ≡ some row
  pub filled : r ≡ record row { body = r.body }
  pub event : Event
  pub recorded : read_event_at env s.file (ref_at id s.request_record) ≡ ok event
  pub has_body : HasBody env id r.body event
  pub attempts : map bare l ≡ map bare (get_list id s.attempts)
  pub unchanged : s' ≡ after

loaded_lem :
    (s : Store) (x : Result (Request × List Attempt)) (c : Request × List Attempt) (s' : Store)
    → loaded s x ≡ (ok (some c), s')
    → (x ≡ ok c) × (s' ≡ s)
unfolding loaded
loaded_lem s (ok b) c s' h = (cc, cc)
loaded_lem s (err x) c s' h = cc

module _ (env : Env) (id : Text) (meanwhile : Store → Store) (s : Store) (r : Request)
    (l : List Attempt) (s' : Store) where
  read_capture-IsLoaded :
      (row : Request)
      → get id s.requests ≡ some row
      → loaded (meanwhile s) (read_capture env id row s) ≡ (ok (some (r, l)), s')
      → IsLoaded env id r l s (meanwhile s) s'
  unfolding loaded read_capture
  read_capture-IsLoaded row found h =
      let (fine, same) = loaded_lem (meanwhile s) (read_capture env id row s) (r, l) s' h in
      let (e, read, more) =
        >>=-eq-ok (read_event_at env s.file (ref_at id s.request_record)) _ fine in
      let (b, kept, last) = >>=-eq-ok (body_of env id e) _ more in
      let (all, loads, is_) =
        >>=-eq-ok (load_attempts env s.file s.tables (get_list id s.attempts)) _ last in
      let whole : record row { body = b } ≡ r = ground (arith, is_) in
      let list : all ≡ l = ground (arith, is_) in
      record {
        row = row;
        found = found;
        filled = rw (← whole);
        event = e;
        recorded = read;
        has_body = rw (← whole) (body_of-HasBody env id b e kept);
        attempts =
            rw (← list) (load_attempts-bare env s.file s.tables (get_list id s.attempts) all loads);
        unchanged = same;
      }

  -- A capture that `Load` returns is the one that the tables have under that identifier, with the
  -- body that its record in the file holds, whose digest that record states, and with its attempts
  -- in order, whatever other operations do meanwhile, once it has begun to read; it changes nothing
  -- itself.
  pub load-IsLoaded :
      load_amid env id meanwhile s ≡ (ok (some (r, l)), s') → IsLoaded env id r l s (meanwhile s) s'
  unfolding load_amid
  load-IsLoaded h = elim (Option-cases (get id s.requests)) [
    | inl absent ↦ absurd (ground (arith, absent, h))
    | inr (row, found) ↦ read_capture-IsLoaded row found (rw (found, load_amid) at h)
  ]
