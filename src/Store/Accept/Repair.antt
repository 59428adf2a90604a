-- ===== src/Store/Accept/Repair.antt =====
-- A capture that comes again, with or without a job to forward it.
use relaybox.Prelude.{
  ◌≡◌, ◌⊎◌, refl, ◌∙◌, ℕ, Text, true, false, ◌==◌, Option, none, some, is_empty, Bool-cases,
  Option-cases, inl, inr, if◌then◌else◌,
}
use relaybox.Map.{get, has}
use relaybox.Store.Model.{
  Request, Job, pending, Event, CaptureResult, captured, duplicate, conflict,
}
use relaybox.Store.Errors.{Result, ok, err}
use relaybox.Store.Env.{Env}
use relaybox.Store.Options.{Options}
use relaybox.Store.Tables.{Tables, RecordRef}
use relaybox.Store.State.{Store, Disk}
use relaybox.Store.Apply.{apply_rows}
use relaybox.Store.Append.{append, stamp}
use relaybox.Store.Append.Effect.{Effect, idle, moved, append-Effect}
use relaybox.Store.Jobs.Moves.{moving, this-job}
use relaybox.Store.Accept.{
  Answer, accept, accept_duplicate, repair, settle, discoverable_job, bad_intent,
}
use relaybox.Store.Accept.Outcome.{accept-IsCaptured}
use relaybox.Store.Accept.Repeats.{verdict, Knows-find, IsCaptured-Knows}

-- Where nothing is left to do: no job is given, or the store has one for the capture, or the
-- bodies differ.
abbrev pub IsComplete : Request → Request → Option Job → Store → Type 0
IsComplete r q given s =
    (given ≡ none)
    ⊎ ((j : Job) × (discoverable_job s.tables r.id ≡ some j))
    ⊎ ((r.body_sha256 == q.body_sha256) ≡ false)

-- The answer and the store where the given job has joined the capture `id`, or could not.
pub record IsRepaired (id : Text) (j : Job) (s : Store) (a : Answer) (s' : Store) : Type 0 where
  pub same_id : a.id ≡ id
  pub repeats : a.result ≡ duplicate
  pub same_requests : s'.requests ≡ s.requests
  pub names : a.error ≡ none → a.job ≡ some (record j { request_id = id })
  pub stored : a.error ≡ none → get j.id s'.jobs ≡ some (record j { request_id = id })

answered :
    (env : Env) (d : Disk) (r q : Request) (given : Option Job) (s : Store)
    → (given ≡ none)
      ⊎ ((j : Job) × (discoverable_job s.tables r.id ≡ some j))
      ⊎ ((r.body_sha256 == q.body_sha256) ≡ false)
    → accept_duplicate env d r.id (verdict r q) given (discoverable_job s.tables r.id) s ≡ (
      record {
        id = r.id;
        result = verdict r q;
        job = discoverable_job s.tables r.id;
        error = none;
      },
      s,
    )
answered env d r q given s (inl h) = rw h (unasked (verdict r q) (discoverable_job s.tables r.id))
  where
    unasked :
        (result : CaptureResult) (persisted : Option Job)
        → accept_duplicate env d r.id result none persisted s
          ≡ (record { id = r.id; result = result; job = persisted; error = none }, s)
    unasked captured persisted = unfold accept_duplicate in refl
    unasked duplicate persisted = unfold accept_duplicate in refl
    unasked conflict persisted = unfold accept_duplicate in refl
answered env d r q given s (inr (inl (j, h))) = rw h (served (verdict r q) given)
  where
    served :
        (result : CaptureResult) (o : Option Job)
        → accept_duplicate env d r.id result o (some j) s
          ≡ (record { id = r.id; result = result; job = some j; error = none }, s)
    served captured o = unfold accept_duplicate in refl
    served duplicate none = unfold accept_duplicate in refl
    served duplicate (some i) = unfold accept_duplicate in refl
    served conflict o = unfold accept_duplicate in refl
answered env d r q given s (inr (inr h)) = rw h (unfold accept_duplicate in refl)

requests-moving :
    (o : Options) (ref : RecordRef) (t : Tables) (seq clock : ℕ) (j : Job)
    → (apply_rows o (stamp seq clock (moving pending j none)) ref t).requests ≡ t.requests
unfolding apply_rows stamp
requests-moving o ref t seq clock j = refl

Effect-requests :
    (j : Job) (seq clock : ℕ) {s : Store} {x : Result Event} {s' : Store}
    → Effect s (stamp seq clock (moving pending j none)) x s'
    → s'.requests ≡ s.requests
Effect-requests j seq clock (idle x rows) = rows.requests
Effect-requests j seq clock {s} (moved x ref same fits rows) =
    rows.requests ∙ requests-moving s.options ref s.tables seq clock j

module _ (env : Env) (d : Disk) (id : Text) (j : Job) (s : Store) where
  abbrev repaired : Job
  repaired = record j { request_id = id }

  settled-IsRepaired :
      (x : Result Event × Store)
      → x.1.requests ≡ s.requests
      → ((e : Event) → x.0 ≡ ok e → get j.id x.1.jobs ≡ some repaired)
      → let r =
          settle
            (record { id = id; result = duplicate; job = some repaired; error = none })
            (λ e. record { id = id; result = duplicate; job = none; error = some e })
            x in
        IsRepaired id j s r.0 r.1
  unfolding settle
  settled-IsRepaired (ok e, s') same there = record {
    same_id = refl;
    repeats = refl;
    same_requests = same;
    names = λ h. refl;
    stored = λ h. there e refl;
  }
  settled-IsRepaired (err x, s') same there = record {
    same_id = refl;
    repeats = refl;
    same_requests = same;
    names = λ h. cc;
    stored = λ h. cc;
  }

  repair-IsRepaired : IsRepaired id j s (repair env d id j s).0 (repair env d id j s).1
  unfolding repair
  repair-IsRepaired = elim (Bool-cases (has j.id s.jobs)) [
    | inl there ↦
        rw (there, repair)
          (record {
            same_id = refl;
            repeats = refl;
            same_requests = refl;
            names = λ h. cc;
            stored = λ h. cc;
          })
    | inr free ↦
        rw (free, repair)
          (settled-IsRepaired (append env d (moving pending repaired none) s)
            (Effect-requests repaired s.seq d.clock
              (append-Effect env d (moving pending repaired none) s))
            (this-job env d pending repaired none s))
  ]

settled_or_asked :
    (r q : Request) (given : Option Job) (s : Store)
    → IsComplete r q given s
      ⊎ ((j : Job) × (given ≡ some j)
          × (discoverable_job s.tables r.id ≡ none)
          × ((r.body_sha256 == q.body_sha256) ≡ true))
settled_or_asked r q none s = inl (inl refl)
settled_or_asked r q (some j) s = elim (Option-cases (discoverable_job s.tables r.id)) [
  | inr (i, there) ↦ inl (inr (inl (i, there)))
  | inl lacks ↦ elim (Bool-cases (r.body_sha256 == q.body_sha256)) [
    | inl agree ↦ inr (j, refl, lacks, agree)
    | inr apart ↦ inl (inr (inr apart))
  ]
]

-- After a capture has been accepted, a request with the same delivery ID, and with the same body
-- where that is empty, is answered with the identifier of that capture: as a duplicate where the
-- digests of the bodies agree, and as a conflict where they do not. The store stays as it is where
-- no job is given, or it has a job for the capture, or the bodies differ. Otherwise the given job,
-- which must be one that fits its request, is stored for that capture unless an error is
-- reported, and the captures are the same as before.
pub accept_again :
    (env : Env) (d d₂ : Disk) (r q : Request) (job given : Option Job) (s s' : Store) (a : Answer)
    → accept env d r job s ≡ (a, s')
    → a.result ≡ captured
    → a.error ≡ none
    → q.delivery_id ≡ r.delivery_id
    → (is_empty r.delivery_id ≡ true → q.body_sha256 ≡ r.body_sha256)
    → bad_intent q given ≡ false
    → (IsComplete r q given s'
        × (accept env d₂ q given s' ≡ (
          record {
            id = r.id;
            result = if r.body_sha256 == q.body_sha256 then duplicate else conflict;
            job = discoverable_job s'.tables r.id;
            error = none;
          },
          s',
        )))
      ⊎ ((j : Job) × (given ≡ some j)
          × (discoverable_job s'.tables r.id ≡ none)
          × ((r.body_sha256 == q.body_sha256) ≡ true)
          × IsRepaired r.id j s' (accept env d₂ q given s').0 (accept env d₂ q given s').1)
unfolding accept accept_duplicate
accept_again env d d₂ r q job given s s' a h c n same body proper =
    let knows = IsCaptured-Knows env d r job s s' (accept-IsCaptured env d r job s s' a h c n) in
    let found = Knows-find r q s' knows same body in
    elim (settled_or_asked r q given s') [
      | inl complete ↦
          inl (complete, rw (proper, found, accept) (answered env d₂ r q given s' complete))
      | inr (j, asked, lacks, agree) ↦ inr (
        j,
        asked,
        lacks,
        agree,
        rw (proper, found, agree, asked, lacks, accept) (repair-IsRepaired env d₂ r.id j s'),
      )
    ]
