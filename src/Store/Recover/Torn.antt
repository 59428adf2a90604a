-- ===== src/Store/Recover/Torn.antt =====
-- Reading a log in two parts, and a log that ends in a torn record.
use relaybox.Prelude.{
  ℕ, ◌+◌, ◌≡◌, ◌≢◌, refl, Bytes, true, false, [], ◌∷◌, ◌++◌, length, All, nat_eq, append_assoc,
  append-nil, length-append, arith, Bool-cases, inl, inr,
}
use relaybox.Store.Errors.{Result, ok, err, ◌>>=◌, >>=-eq-ok}
use relaybox.Store.Env.{Env, newline}
use relaybox.Store.Options.{Options}
use relaybox.Store.Recover.{Progress, recover_record, take_record, scan}

module _ (env : Env) (o : Options) where
  -- One byte: the end of a record, or one more byte of it.
  scan-newline :
      (p : Progress) (torn : Bytes) (b : ℕ) (f : Bytes)
      → nat_eq b newline ≡ true
      → scan env o p torn (b ∷ f)
        ≡ (recover_record env o p (torn ++ b ∷ []) >>= λ q. scan env o q [] f)
  unfolding scan
  scan-newline p torn b f h = ground arith

  scan-other :
      (p : Progress) (torn : Bytes) (b : ℕ) (f : Bytes)
      → nat_eq b newline ≡ false
      → scan env o p torn (b ∷ f) ≡ scan env o p (torn ++ b ∷ []) f
  unfolding scan
  scan-other p torn b f h = ground arith

  bind-scan :
      (r : Result Progress) (f g : Bytes) (k : Progress × Bytes → Result (Progress × Bytes))
      → ((q : Progress) → scan env o q [] (f ++ g) ≡ (scan env o q [] f >>= k))
      → (r >>= λ q. scan env o q [] (f ++ g)) ≡ (r >>= (λ q. scan env o q [] f) >>= k)
  bind-scan (ok q) f g k h = h q
  bind-scan (err e) f g k h = refl

  -- Reading `f` and `g` one after the other is reading `f`, then `g` from where that stopped.
  pub scan-append :
      (p : Progress) (torn f g : Bytes)
      → scan env o p torn (f ++ g) ≡ (scan env o p torn f >>= λ (q, rest). scan env o q rest g)
  unfolding scan
  scan-append p torn [] g = refl
  scan-append p torn (b ∷ f) g = elim (Bool-cases (nat_eq b newline)) [
    | inl e ↦
        rw (scan-newline p torn b (f ++ g) e, scan-newline p torn b f e)
          (bind-scan (recover_record env o p (torn ++ b ∷ [])) f g
            (λ (q, rest). scan env o q rest g) (λ q. scan-append q [] f g))
    | inr e ↦
        rw (scan-other p torn b (f ++ g) e, scan-other p torn b f e)
          (scan-append p (torn ++ b ∷ []) f g)
  ]

  -- Bytes without a newline add to the torn record.
  pub scan-torn :
      (p : Progress) (torn f : Bytes)
      → All (λ c. c ≢ newline) f
      → scan env o p torn f ≡ ok (p, torn ++ f)
  unfolding scan
  scan-torn p torn [] h = rw append-nil
  scan-torn p torn (b ∷ f) h =
      ground (arith, scan-torn p (torn ++ b ∷ []) f, append_assoc torn (b ∷ []) f)

  -- A complete line is one record.
  pub scan-line :
      (p : Progress) (torn f : Bytes)
      → All (λ c. c ≢ newline) f
      → scan env o p torn (f ++ newline ∷ [])
        ≡ (recover_record env o p (torn ++ f ++ newline ∷ []) >>= λ q. ok (q, []))
  unfolding scan
  scan-line p torn f h = rw scan-append (rw (scan-torn p torn f h) refl)

  -- A record that is taken moves `good` behind its line.
  record-good :
      (p : Progress) (line : Bytes) (q : Progress)
      → recover_record env o p line ≡ ok q
      → q.good ≡ p.good + length line
  unfolding recover_record take_record
  record-good p line q h = ground arith

  -- What has been taken and what is torn make up what has been read.
  pub scan-good :
      (p : Progress) (torn f : Bytes) (q : Progress) (rest : Bytes)
      → scan env o p torn f ≡ ok (q, rest)
      → q.good + length rest ≡ p.good + length torn + length f
  unfolding scan
  scan-good p torn [] q rest h = ground arith
  scan-good p torn (b ∷ f) q rest h = elim (Bool-cases (nat_eq b newline)) [
    | inl e ↦
        let (q', taken, read) =
          >>=-eq-ok (recover_record env o p (torn ++ b ∷ [])) (λ q. scan env o q [] f)
            (rw (scan-newline p torn b f e) at h) in
        omega (
          arith,
          scan-good q' [] f q rest read,
          record-good p (torn ++ b ∷ []) q' taken,
          length-append torn (b ∷ []),
        )
    | inr e ↦ omega (
      arith,
      scan-good p (torn ++ b ∷ []) f q rest (rw (scan-other p torn b f e) at h),
      length-append torn (b ∷ []),
    )
  ]
