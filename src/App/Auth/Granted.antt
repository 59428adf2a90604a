-- ===== src/App/Auth/Granted.antt =====
-- Which signatures and which operators pass.
use relaybox.Prelude.{
  ◌+◌, ◌<◌, ◌≡◌, ◌↔◌, inl, inr, refl, sym, ap, ◌∙◌, Text, Bytes, codes, Bool, true, false, not,
  ◌||◌, ◌==◌, ==-refl, text_eq_iff, Option, none, some, [], ◌∷◌, ◌++◌, length, length-append,
  is_empty, is_prefix, strip_prefix, trim_prefix, hex_decode, arith, Option-cases, Bool-cases,
  if◌then◌else◌,
}
use relaybox.Prelude.Strings.Laws.{strip_prefix-append, append-strip_prefix}
use relaybox.App.Auth.{
  Url, Crypto, verify, session_token, Access, Asking, Gate, granted, same_origin, check_origin,
  operator, matches, by_token, by_cookie,
}

is_prefix-strip :
    (p s : Text) → is_prefix p s ≡ elim (strip_prefix p s) [ none ↦ false | some rest ↦ true ]
unfolding is_prefix strip_prefix
is_prefix-strip [] s = refl
is_prefix-strip (x ∷ p) [] = refl
is_prefix-strip (x ∷ p) (y ∷ s) = ground (arith, is_prefix-strip p s)

-- A signature is one if it is `sha256=` and hexadecimal digits, in either case, of the MAC.
pub IsSignature : Crypto → Text → Text → Bytes → Type 0
IsSignature k secret sig body =
    (h : Text) × (sig ≡ codes "sha256=" ++ h) × (hex_decode h ≡ some (k.mac secret body))

decodes :
    (m : Bytes) (o : Option Bytes)
    → elim o [ none ↦ false | some got ↦ got == m ] ≡ true
    → o ≡ some m
decodes m none h = cc
decodes m (some got) h = ap some ((text_eq_iff got m).0 h)

-- A test of what stands behind a prefix.
behind-prefix :
    (f : Text → Bool) (p s : Text)
    → (if not (is_prefix p s) then false else f (trim_prefix p s))
      ≡ elim (strip_prefix p s) [ none ↦ false | some rest ↦ f rest ]
unfolding trim_prefix
behind-prefix f p s = elim (Option-cases (strip_prefix p s)) [
  | inl e ↦ rw (is_prefix-strip p s, e) refl
  | inr (rest, e) ↦ rw (is_prefix-strip p s, e, trim_prefix) refl
]

mac_matches : Bytes → Text → Bool
mac_matches m rest = elim (hex_decode rest) [ none ↦ false | some got ↦ got == m ]

strip-true :
    (f : Text → Bool) (o : Option Text)
    → elim o [ none ↦ false | some rest ↦ f rest ] ≡ true
    → (rest : Text) × (o ≡ some rest) × (f rest ≡ true)
strip-true f none h = cc
strip-true f (some rest) h = (rest, refl, h)

-- A delivery's signature passes exactly if it is `sha256=` followed by hexadecimal digits that
-- decode to the HMAC of the body under the secret.
pub verify_iff :
    (k : Crypto) (secret sig : Text) (body : Bytes)
    → (verify k secret sig body ≡ true) ↔ IsSignature k secret sig body
unfolding verify IsSignature mac_matches
verify_iff k secret sig body =
    let p = codes "sha256=" in
    let m = k.mac secret body in
    (
      (λ h.
          let (rest, stripped, same) =
            strip-true (mac_matches m) (strip_prefix p sig)
              (sym (behind-prefix (mac_matches m) p sig) ∙ h) in
          (rest, append-strip_prefix p sig rest stripped, decodes m (hex_decode rest) same)),
      (λ (h, same, decoded).
          behind-prefix (mac_matches m) p sig
          ∙ ap (λ s. elim (strip_prefix p s) [ none ↦ false | some rest ↦ mac_matches m rest ]) same
          ∙ ap (λ (o : Option Text). elim o [ none ↦ false | some rest ↦ mac_matches m rest ])
              (strip_prefix-append p h)
          ∙ ap (λ (o : Option Bytes). elim o [ none ↦ false | some got ↦ got == m ]) decoded
          ∙ ==-refl m),
    )

matches-eq :
    (c : Access) (got expected : Text)
    → (matches c got expected ≡ true) ↔ ((is_empty c.operator_token ≡ false) × (got ≡ expected))
matches-eq c got expected = (
  λ h. ground (arith, text_eq_iff got expected),
  λ h. ground (arith, text_eq_iff got expected, ap length h.1),
)

-- The request only reads, or names an origin that is the server's own, or names none and does not
-- rest on the cookie.
pub data IsSafe (parse_url : Text → Option Url) (c : Access) (r : Asking) (used_cookie : Bool)
    : Type 0 where
  reads :
      (r.method == codes "GET" || r.method == codes "HEAD") ≡ true
      → IsSafe parse_url c r used_cookie
  own :
      same_origin parse_url c r ≡ true
      → is_empty r.origin ≡ false
      → IsSafe parse_url c r used_cookie
  direct : used_cookie ≡ false → is_empty r.origin ≡ true → IsSafe parse_url c r used_cookie

module _ (parse_url : Text → Option Url) (c : Access) (r : Asking) where
  check_origin-IsSafe :
      (used : Bool) → check_origin parse_url c r used ≡ granted → IsSafe parse_url c r used
  unfolding check_origin
  check_origin-IsSafe used h =
      elim (Bool-cases (r.method == codes "GET" || r.method == codes "HEAD")) [
        | inl e ↦ reads e
        | inr e ↦ elim (Bool-cases (is_empty r.origin)) [
          | inl absent ↦ direct (ground arith) absent
          | inr there ↦ own (ground arith) there
        ]
      ]

  IsSafe-check_origin :
      (used : Bool) → IsSafe parse_url c r used → check_origin parse_url c r used ≡ granted
  unfolding check_origin
  IsSafe-check_origin used (reads e) = rw e refl
  IsSafe-check_origin used (own same there) = rw (same, there) (ground arith)
  IsSafe-check_origin used (direct e absent) = rw (e, absent) (ground arith)

  module _ (k : Crypto) where
    no_token : matches c [] c.operator_token ≡ false
    no_token = elim (Bool-cases (matches c [] c.operator_token)) [
      | inl e ↦ ground (arith, (matches-eq c [] c.operator_token).0 e)
      | inr e ↦ e
    ]

    -- `operator` after the prefix has been taken off.
    decide : Text → Gate
    decide got =
        if got == r.authorization
        then by_cookie parse_url k c r r.cookie
        else by_token parse_url c r got

    longer-differs :
        (p got : Text)
        → 0 < length p
        → r.authorization ≡ p ++ got
        → (got == r.authorization) ≡ false
    longer-differs p got long whole = elim (Bool-cases (got == r.authorization)) [
      | inl same ↦
          let lengths : length got ≡ length p + length got =
            ap length ((text_eq_iff got r.authorization).0 same ∙ whole) ∙ length-append p got in
          absurd (omega arith)
      | inr e ↦ e
    ]

    trim-some :
        (p got : Text)
        → strip_prefix p r.authorization ≡ some got
        → trim_prefix p r.authorization ≡ got
    unfolding trim_prefix
    trim-some p got e = rw (e, trim_prefix) refl

    trim-none :
        (p : Text)
        → strip_prefix p r.authorization ≡ none
        → trim_prefix p r.authorization ≡ r.authorization
    unfolding trim_prefix
    trim-none p e = rw (e, trim_prefix) refl

    with-token :
        (p got : Text)
        → 0 < length p
        → strip_prefix p r.authorization ≡ some got
        → decide (trim_prefix p r.authorization) ≡ by_token parse_url c r got
    unfolding decide
    with-token p got long e =
        ap decide (trim-some p got e)
        ∙ rw (longer-differs p got long (append-strip_prefix p r.authorization got e)) refl

    with-cookie :
        (p : Text)
        → strip_prefix p r.authorization ≡ none
        → decide (trim_prefix p r.authorization) ≡ by_cookie parse_url k c r r.cookie
    unfolding decide
    with-cookie p e = ap decide (trim-none p e) ∙ rw (==-refl r.authorization) refl

    token-granted :
        (got : Text)
        → by_token parse_url c r got ≡ granted
        → (is_empty c.operator_token ≡ false)
          × (got ≡ c.operator_token)
          × IsSafe parse_url c r false
    unfolding by_token
    token-granted got h = elim (Bool-cases (matches c got c.operator_token)) [
      | inl e ↦
          let (has_token, same) = (matches-eq c got c.operator_token).0 e in
          (has_token, same, check_origin-IsSafe false (rw e at h))
      | inr e ↦ absurd (ground (arith, rw e at h))
    ]

    cookie-granted :
        (o : Option Text)
        → by_cookie parse_url k c r o ≡ granted
        → (is_empty c.operator_token ≡ false)
          × (o ≡ some (session_token k c.operator_token))
          × IsSafe parse_url c r true
    unfolding by_cookie by_token
    cookie-granted none h = absurd (ground (arith, rw no_token at h))
    cookie-granted (some value) h =
        elim (Bool-cases (matches c value (session_token k c.operator_token))) [
          | inl e ↦
              let (has_token, same) = (matches-eq c value (session_token k c.operator_token)).0 e in
              (has_token, ap some same, check_origin-IsSafe true (rw e at h))
          | inr e ↦ absurd (ground (arith, rw e at h))
        ]

    -- An operator shows the token itself, or without a bearer token the session's cookie.
    pub data IsOperator : Type 0 where
      bearer :
          is_empty c.operator_token ≡ false
          → r.authorization ≡ codes "Bearer " ++ c.operator_token
          → IsSafe parse_url c r false
          → IsOperator
      cookie :
          is_empty c.operator_token ≡ false
          → strip_prefix (codes "Bearer ") r.authorization ≡ none
          → r.cookie ≡ some (session_token k c.operator_token)
          → IsSafe parse_url c r true
          → IsOperator

    granted-IsOperator : operator parse_url k c r ≡ granted → IsOperator
    unfolding operator decide
    granted-IsOperator h =
        let p = codes "Bearer " in
        elim (Option-cases (strip_prefix p r.authorization)) [
          | inl e ↦
              let (has_token, same, safe) = cookie-granted r.cookie (sym (with-cookie p e) ∙ h) in
              cookie has_token e same safe
          | inr (got, e) ↦
              let (has_token, same, safe) =
                token-granted got (sym (with-token p got (omega arith) e) ∙ h) in
              bearer has_token (append-strip_prefix p r.authorization got e ∙ ap (λ t. p ++ t) same)
                safe
        ]

    IsOperator-granted : IsOperator → operator parse_url k c r ≡ granted
    unfolding operator decide by_token by_cookie
    IsOperator-granted (bearer has_token whole safe) =
        let p = codes "Bearer " in
        let stripped = ap (strip_prefix p) whole ∙ strip_prefix-append p c.operator_token in
        let fits = (matches-eq c c.operator_token c.operator_token).1 (has_token, refl) in
        with-token p c.operator_token (omega arith) stripped
        ∙ rw fits (IsSafe-check_origin false safe)
    IsOperator-granted (cookie has_token e same safe) =
        let token = session_token k c.operator_token in
        let fits = (matches-eq c token token).1 (has_token, refl) in
        with-cookie (codes "Bearer ") e
        ∙ ap (by_cookie parse_url k c r) same
        ∙ rw fits (IsSafe-check_origin true safe)

    -- An operator's request goes on to its handler exactly where a token is configured and the
    -- request either carries it behind `Bearer `, or has no such header and carries the session's
    -- cookie; and where it only reads, or its origin is the server's own, or it has no origin and
    -- does not rest on the cookie.
    pub operator-granted_iff : (operator parse_url k c r ≡ granted) ↔ IsOperator
    operator-granted_iff = (granted-IsOperator, IsOperator-granted)
