-- ===== src/Store/Append/Line.antt =====
-- A line that is ready to be written is one that recovery takes.
use relaybox.Prelude.{
  ◌+◌, ◌<◌, ◌≤◌, ◌^◌, ◌≡◌, Bytes, false, Option, some, [], ◌∷◌, ◌++◌, length, arith, inl, inr,
  Option-cases,
}
use relaybox.Store.Model.{Event}
use relaybox.Store.Errors.{Error, ok, err, >>-eq-ok}
use relaybox.Store.Env.{Env, IsExact, newline}
use relaybox.Store.Options.{Options}
use relaybox.Store.Validate.{Checked, validate_recovered_event, validate_state}
use relaybox.Store.State.{Store, Disk, max_event_bytes}
use relaybox.Store.Append.{ready, prepare, check_event, encode_line, pass_hook}
use relaybox.Store.Recover.{Progress, check_record, take_record, recover_record}

-- What `prepare` has established of a line that it lets through.
pub record IsReady (env : Env) (s : Store) (e : Event) (line : Bytes) : Type 0 where
  pub body : Bytes
  pub encoded : env.encode e ≡ some body
  pub ends : line ≡ body ++ newline ∷ []
  pub bounded : length line ≤ max_event_bytes
  pub valid : validate_recovered_event env e ≡ ok tt
  pub fits : validate_state s.tables e ≡ ok tt

module _ (env : Env) (e : Event) where
  encode_line-ready :
      (x : Option Error) (line : Bytes)
      → encode_line env x e ≡ ready line
      → (b : Bytes) × (env.encode e ≡ some b)
        × (line ≡ b ++ newline ∷ [])
        × (length line ≤ max_event_bytes)
  unfolding encode_line
  encode_line-ready x line h = elim (Option-cases (env.encode e)) [
    | inl n ↦ absurd (ground arith)
    | inr (b, enc) ↦ (b, enc, ground arith, ground arith)
  ]

  pass_hook-ready :
      (d : Disk) (c : Checked) (line : Bytes)
      → pass_hook env d e c ≡ ready line
      → (c ≡ ok tt) × (encode_line env d.seek_error e ≡ ready line)
  unfolding pass_hook
  pass_hook-ready d (err x) line h = cc
  pass_hook-ready d (ok u) line h = ground arith

  pub prepare-IsReady :
      (d : Disk) (s : Store) (line : Bytes) → prepare env d s e ≡ ready line → IsReady env s e line
  unfolding prepare check_event
  prepare-IsReady d s line h =
      let (checked, written) = pass_hook-ready d (check_event env s e) line h in
      let (body, encoded, ends, bounded) = encode_line-ready d.seek_error line written in
      let (valid, fits) =
        >>-eq-ok (validate_recovered_event env e) (validate_state s.tables e) checked in
      record {
        body = body;
        encoded = encoded;
        ends = ends;
        bounded = bounded;
        valid = valid;
        fits = fits;
      }

module _ (env : Env) (o : Options) where
  pub recover-ready :
      (s : Store) (p : Progress) (e : Event) (line : Bytes)
      → IsExact env e
      → IsReady env s e line
      → p.image ≡ s.image
      → e.seq ≡ s.seq + 1
      → s.seq + 1 < 2 ^ 64
      → e.snapshot ≡ false
      → recover_record env o p line ≡ ok (take_record env o p (length line) e)
  unfolding recover_record check_record
  recover-ready s p e line x r same next room plain =
      ground (arith, x.decodes r.body r.encoded, r.ends, r.bounded, r.valid, r.fits)
