-- ===== src/App/Headers.antt =====
-- `sensitiveHeaderPolicy`, `sensitiveHeader`, `redactWithPolicy`, the `sanitize` functions and
-- `forwardHeaders` of internal/app/app.go. Header names are ASCII, as in HTTP.
pub mod Names
pub mod Redacted
pub mod Forwarded
use mathlib.Core.List.{foldl}
use relaybox.Prelude.{
  ℕ, ◌-◌, ◌+◌, Text, codes, Bool, true, false, not, ◌&&◌, ◌||◌, ◌==◌, Option, none, some, List, [],
  ◌∷◌, ◌++◌, is_empty, map, select, leb, nat_eq, contains, split, trim_space, to_lower,
  if◌then◌else◌,
}
use relaybox.Map.{TextSet, get, put, has}
use relaybox.Store.Model.{Header, Request, Attempt, Event}
use relaybox.Store.Tables.{get_list}

-- The names that every policy has, in lower case.
abbrev default_sensitive : List Text
default_sensitive =
    codes "authorization"
    ∷ codes "proxy-authorization"
    ∷ codes "cookie"
    ∷ codes "set-cookie"
    ∷ codes "api-key"
    ∷ codes "x-api-key"
    ∷ codes "api-token"
    ∷ codes "x-api-token"
    ∷ codes "x-auth-token"
    ∷ codes "x-access-token"
    ∷ codes "x-client-token"
    ∷ codes "x-token"
    ∷ codes "secret-key"
    ∷ codes "x-secret-key"
    ∷ codes "x-secret"
    ∷ codes "x-client-secret"
    ∷ codes "x-amz-security-token"
    ∷ codes "x-hub-signature"
    ∷ codes "x-hub-signature-256"
    ∷ []

add_names : List Text → TextSet → TextSet
add_names [] policy = policy
add_names (name ∷ names) policy = add_names names (put name tt policy)

add_extra : List Text → TextSet → TextSet
add_extra [] policy = policy
add_extra (name ∷ names) policy =
    let trimmed = trim_space name in
    add_extra names (if is_empty trimmed then policy else put (to_lower trimmed) tt policy)

pub sensitive_header_policy : List Text → TextSet
sensitive_header_policy extra = add_extra extra (add_names default_sensitive [])

-- `r >= 'a' && r <= 'z' || r >= '0' && r <= '9'`, of a byte in lower case
abbrev is_name_byte : ℕ → Bool
is_name_byte c = (leb b'a' c && leb c b'z') || (leb b'0' c && leb c b'9')

-- The components between other bytes. `current` is the one that is being read.
components : Text → Text → List Text
components current [] = if is_empty current then [] else current ∷ []
components current (c ∷ s) = elim (is_name_byte c) [
  | true ↦ components (current ++ c ∷ []) s
  | false ↦ let rest = components [] s in if is_empty current then rest else current ∷ rest
]

any_text : (Text → Bool) → List Text → Bool
any_text p [] = false
any_text p (x ∷ xs) = p x || any_text p xs

abbrev markers : List Text
markers =
    codes "apikey"
    ∷ codes "authorization"
    ∷ codes "authentication"
    ∷ codes "credential"
    ∷ codes "cookie"
    ∷ codes "secret"
    ∷ codes "signature"
    ∷ codes "token"
    ∷ []

-- `sensitiveHeader` of a name that is trimmed and in lower case.
unfoldable pub sensitive_lower : TextSet → Text → Bool
unfolding components any_text
sensitive_lower policy name =
    has name policy
    || any_text (λ c. c == codes "auth") (components [] name)
    || any_text (contains (select is_name_byte name)) markers

unfoldable pub sensitive_header : Text → TextSet → Bool
sensitive_header name policy = sensitive_lower policy (to_lower (trim_space name))

abbrev pub redacted : Text
redacted = codes "[REDACTED]"

abbrev pub redact_entry : TextSet → Text × List Text → Text × List Text
redact_entry policy (name, values) =
    (name, (if sensitive_header name policy then redacted ∷ [] else values))

unfoldable pub redact_with_policy : TextSet → Header → Header
redact_with_policy policy = map (redact_entry policy)

unfoldable pub sanitize_request : TextSet → Request → Request
sanitize_request policy r = record r { headers = redact_with_policy policy r.headers }

unfoldable pub sanitize_attempt : TextSet → Attempt → Attempt
sanitize_attempt policy a = record a {
  response_headers = redact_with_policy policy a.response_headers;
}

unfoldable pub sanitize_event : TextSet → Event → Event
sanitize_event policy e = record e {
  request = elim e.request [ none ↦ none | some r ↦ some (sanitize_request policy r) ];
  attempt = elim e.attempt [ none ↦ none | some a ↦ some (sanitize_attempt policy a) ];
}

-- A byte that `net/textproto` allows in a header name: a token character of RFC 7230.
abbrev is_token_byte : ℕ → Bool
is_token_byte c =
    (leb b'a' c && leb c b'z')
    || (leb b'A' c && leb c b'Z')
    || (leb b'0' c && leb c b'9')
    || contains (codes "!#$%&'*+-.^_`|~") (c ∷ [])

all_tokens : Text → Bool
all_tokens [] = true
all_tokens (c ∷ s) = is_token_byte c && all_tokens s

abbrev upper_byte : ℕ → ℕ
upper_byte c = if leb b'a' c && leb c b'z' then c - 32 else c

abbrev lower_letter : ℕ → ℕ
lower_letter c = if leb b'A' c && leb c b'Z' then c + 32 else c

-- The first letter and each letter behind a "-" in upper case, the others in lower case.
capitalise : Bool → Text → Text
capitalise first [] = []
capitalise first (c ∷ s) =
    (if first then upper_byte c else lower_letter c) ∷ capitalise (nat_eq c b'-') s

-- `http.CanonicalHeaderKey`: a name with a byte that is not allowed stays as it is.
unfoldable pub canonical : Text → Text
unfolding all_tokens capitalise
canonical s = if all_tokens s then capitalise true s else s

abbrev hop_by_hop : List Text
hop_by_hop =
    codes "Connection"
    ∷ codes "Keep-Alive"
    ∷ codes "Proxy-Authenticate"
    ∷ codes "Proxy-Authorization"
    ∷ codes "Proxy-Connection"
    ∷ codes "Te"
    ∷ codes "Trailer"
    ∷ codes "Transfer-Encoding"
    ∷ codes "Upgrade"
    ∷ codes "Forwarded"
    ∷ codes "X-Forwarded-For"
    ∷ codes "X-Forwarded-Host"
    ∷ codes "X-Forwarded-Proto"
    ∷ codes "X-Real-Ip"
    ∷ codes "X-Relaybox-Job-Id"
    ∷ codes "X-Relaybox-Request-Id"
    ∷ []

drop_tokens : List Text → TextSet → TextSet
drop_tokens [] drop = drop
drop_tokens (token ∷ tokens) drop =
    let name = canonical (trim_space token) in
    drop_tokens tokens (if is_empty name then drop else put name tt drop)

drop_connection : List Text → TextSet → TextSet
drop_connection [] drop = drop
drop_connection (value ∷ values) drop = drop_connection values (drop_tokens (split b',' value) drop)

-- The names that are not passed on: those of one hop, and what `Connection` names.
unfoldable pub dropped_names : Header → TextSet
unfolding add_names drop_tokens drop_connection
dropped_names src = drop_connection (get_list (codes "Connection") src) (add_names hop_by_hop [])

-- `dst.Add(name, value)` for each value but the marker of a redacted one.
add_values : Text → List Text → Header → Header
add_values name [] dst = dst
add_values name (value ∷ values) dst = add_values name values (
    if value == redacted
    then dst
    else put (canonical name) (get_list (canonical name) dst ++ value ∷ []) dst)

forward_entry : TextSet → TextSet → Header → Text × List Text → Header
unfolding add_values
forward_entry policy drop dst (name, values) =
    if sensitive_header name policy || has (canonical name) drop || is_empty (canonical name)
    then dst
    else add_values (canonical name) values dst

unfoldable pub forward_headers : Header → TextSet → Header
unfolding forward_entry
forward_headers src policy = foldl (forward_entry policy (dropped_names src)) [] src
