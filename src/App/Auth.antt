-- ===== src/App/Auth.antt =====
-- Who may do what: `verify` of a delivery's signature, and `operator`, `sameOrigin`, `session` and
-- `sessionToken` in internal/app/app.go. HMAC-SHA256, unpadded URL-safe base64 and `url.Parse` are
-- parameters. Texts are compared in constant time there, and by `==` here.
pub mod Granted
use relaybox.Prelude.{
  ℕ, Text, Bytes, codes, Bool, true, false, not, ◌&&◌, ◌||◌, ◌==◌, Option, none, some, [], length,
  is_empty, is_prefix, trim_prefix, equal_fold, nat_eq, hex_decode, if◌then◌else◌,
}

-- What the program calls in Go's `crypto`, `encoding/base64` and `net/url`.
pub record Url : Type 0 where
  pub scheme : Text
  pub host : Text
  pub hostname : Text
  pub has_user : Bool
  pub path : Text
  pub raw_query : Text
  pub fragment : Text

pub record Crypto : Type 0 where
  -- the HMAC-SHA256 of a message under a key
  pub mac : Text → Bytes → Bytes
  -- `base64.RawURLEncoding.EncodeToString`
  pub base64 : Bytes → Text

unfoldable pub verify : Crypto → Text → Text → Bytes → Bool
verify k secret sig body =
    if not (is_prefix (codes "sha256=") sig)
    then false
    else elim (hex_decode (trim_prefix (codes "sha256=") sig)) [
      | none ↦ false
      | some got ↦ got == k.mac secret body
    ]

unfoldable pub session_token : Crypto → Text → Text
session_token k operator_token =
    k.base64 (k.mac operator_token (codes "relaybox/operator-session/v1"))

pub record Access : Type 0 where
  pub operator_token : Text
  pub secure_cookies : Bool

-- What `operator` reads of a request. `cookie` is the value of `relaybox_operator`, if it has one.
pub record Asking : Type 0 where
  pub method : Text
  pub authorization : Text
  pub cookie : Option Text
  pub origin : Text
  pub host : Text
  pub has_tls : Bool

-- The request goes on to its handler, or is refused with a status and a message.
pub data Gate : Type 0 where
  granted token_required origin_required cross_origin : Gate

unfoldable pub gate_status : Gate → Option (ℕ × Text)
gate_status granted = none
gate_status token_required = some (401, codes "operator token required")
gate_status origin_required = some (403, codes "origin required for cookie-authenticated request")
gate_status cross_origin = some (403, codes "cross-origin request denied")

-- `len(got) == len(expected) && subtle.ConstantTimeCompare(got, expected) == 1`, with a token
-- configured
abbrev pub matches : Access → Text → Text → Bool
matches c got expected =
    not (is_empty c.operator_token || not (nat_eq (length got) (length expected)))
    && got == expected

module _ (parse_url : Text → Option Url) where
  abbrev expected_scheme : Access → Asking → Text
  expected_scheme c r = if r.has_tls || c.secure_cookies then codes "https" else codes "http"

  unfoldable pub same_origin : Access → Asking → Bool
  same_origin c r = elim (parse_url r.origin) [
    | none ↦ false
    | some u ↦
        if u.has_user
          || not (is_empty u.path)
          || not (is_empty u.raw_query)
          || not (is_empty u.fragment)
        then false
        else equal_fold u.scheme (expected_scheme c r) && equal_fold u.host r.host
  ]

  -- The checks on the origin of a request that changes something.
  check_origin : Access → Asking → Bool → Gate
  unfolding same_origin
  check_origin c r used_cookie =
      if r.method == codes "GET" || r.method == codes "HEAD"
      then granted
      else if used_cookie && is_empty r.origin
      then origin_required
      else if not (is_empty r.origin) && not (same_origin c r)
      then cross_origin
      else granted

  by_token : Access → Asking → Text → Gate
  unfolding check_origin
  by_token c r got =
      if matches c got c.operator_token then check_origin c r false else token_required

  -- Without a bearer token, the cookie counts.
  by_cookie : Crypto → Access → Asking → Option Text → Gate
  unfolding check_origin
  by_cookie k c r none = by_token c r []
  by_cookie k c r (some value) =
      if matches c value (session_token k c.operator_token)
      then check_origin c r true
      else token_required

  unfoldable pub operator : Crypto → Access → Asking → Gate
  unfolding by_token by_cookie
  operator k c r =
      let got = trim_prefix (codes "Bearer ") r.authorization in
      if got == r.authorization then by_cookie k c r r.cookie else by_token c r got

-- The cookie that `session` sets.
pub record Cookie : Type 0 where
  pub name : Text
  pub value : Text
  pub path : Text
  pub http_only : Bool
  pub same_site_strict : Bool
  pub secure : Bool
  pub max_age : ℕ

unfoldable pub session : Crypto → Access → Asking → Cookie
unfolding session_token
session k c r = record {
  name = codes "relaybox_operator";
  value = session_token k c.operator_token;
  path = codes "/api/";
  http_only = true;
  same_site_strict = true;
  secure = r.has_tls || c.secure_cookies;
  max_age = 28800;
}
