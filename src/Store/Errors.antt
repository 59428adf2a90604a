-- ===== src/Store/Errors.antt =====
-- The errors of internal/store, and results that may be one.
use relaybox.Prelude.{ℕ, ◌≡◌, refl, ◌⊎◌, inl, inr}

pub data Error : Type 0 where
  -- the exported errors
  capacity event_backlog id_collision lease_lost : Error
  -- `os.ErrClosed`, and `store poisoned: …`
  closed : Error
  poisoned : Error → Error
  -- an error of the operating system, of a hook or of the encoder, by a number
  io : ℕ → Error
  encoding short_write event_too_long corrupt sequence_gap snapshot_after_mutation
        sequence_exhausted :
      Error
  missing_timestamp empty_eviction unknown_kind : Error
  invalid_capture invalid_capture_job invalid_request invalid_attempt_event invalid_job : Error
  state_kind_mismatch invalid_attempt attempt_not_of_job digest_mismatch : Error
  request_duplicated job_identity job_without_request : Error
  attempt_duplicated attempt_without_request attempt_without_job : Error
  invalid_intent request_missing not_pending wrong_attempt_number invalid_result_state : Error
  invalid_reference unexpected_eof record_sequence record_identity : Error

pub data Result {ℓ} (A : Type ℓ) : Type ℓ where
  ok : A → Result A
  err : Error → Result A

infixl 5 ◌>>◌ ◌>>=◌
-- One check after another: the first error counts.
abbrev pub ◌>>◌ {ℓ} : {A : Type ℓ} → Result (Unit {0}) → Result A → Result A
ok u >> next = next
err x >> next = err x

abbrev pub ◌>>=◌ {κ ℓ} : {B : Type κ} {A : Type ℓ} → Result B → (B → Result A) → Result A
ok b >>= next = next b
err x >>= next = err x

pub >>-eq-ok {ℓ} :
    {A : Type ℓ} (m : Result (Unit {0})) (n : Result A) {b : A}
    → (m >> n) ≡ ok b
    → (m ≡ ok tt) × (n ≡ ok b)
>>-eq-ok (ok u) n h = (refl, h)
>>-eq-ok (err e) n h = cc

pub >>=-eq-ok {κ ℓ} :
    {B : Type κ} {A : Type ℓ} (first : Result B) (next : B → Result A) {a : A}
    → (first >>= next) ≡ ok a
    → (b : B) × (first ≡ ok b) × (next b ≡ ok a)
>>=-eq-ok (err x) next fails = cc
>>=-eq-ok (ok b) next same = (b, refl, same)

pub Result-cases {ℓ} :
    {A : Type ℓ} (r : Result A) → ((a : A) × (r ≡ ok a)) ⊎ ((x : Error) × (r ≡ err x))
Result-cases (ok a) = inl (a, refl)
Result-cases (err x) = inr (x, refl)
