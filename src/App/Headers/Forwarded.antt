-- ===== src/App/Headers/Forwarded.antt =====
-- What is passed on to the target: no credential, no header of one hop, no marker.
use mathlib.Core.List.{foldl}
use relaybox.Prelude.{
  ◌≡◌, ◌≢◌, ◌∙◌, refl, Text, codes, true, false, split, trim_space, All-imp, ◌||◌, ◌==◌,
  text_eq_iff, List, [], ◌∷◌, ◌++◌, is_empty, All, All-append, arith, Bool-cases, inl, inr,
}
use relaybox.Map.{TextSet, get, put, delete, has, get-put, get-put_self}
use relaybox.Store.Model.{Header}
use relaybox.Store.Tables.{get_list}
use relaybox.App.Headers.{
  sensitive_header, canonical, redacted, dropped_names, drop_tokens, drop_connection, add_names,
  hop_by_hop, add_values, forward_entry, forward_headers,
}
use relaybox.App.Headers.Names.{sensitive_header-canonical, canonical_idem}

-- A header that may be passed on, with values that may be.
abbrev IsPlain : TextSet → TextSet → Text × List Text → Type 0
IsPlain policy drop (name, values) =
    (sensitive_header name policy ≡ false)
    × (is_empty name ≡ false)
    × (has name drop ≡ false)
    × All (λ v. v ≢ redacted) values

module _ (policy drop : TextSet) where
  All-delete :
      (k : Text) (m : Header) → All (IsPlain policy drop) m → All (IsPlain policy drop) (delete k m)
  unfolding delete
  All-delete k [] h = tt
  All-delete k ((j, v) ∷ m) h = elim (Bool-cases (j == k)) [
    | inl e ↦ rw e (All-delete k m h.1)
    | inr e ↦ rw e (h.0, All-delete k m h.1)
  ]

  All-put :
      (k : Text) (v : List Text) (m : Header)
      → IsPlain policy drop (k, v)
      → All (IsPlain policy drop) m
      → All (IsPlain policy drop) (put k v m)
  unfolding put
  All-put k v m h a = (h, All-delete k m a)

  values-plain :
      (k : Text) (m : Header) → All (IsPlain policy drop) m → All (λ v. v ≢ redacted) (get_list k m)
  unfolding get
  values-plain k [] h = tt
  values-plain k ((j, v) ∷ m) h = elim (Bool-cases (j == k)) [
    | inl e ↦ rw (e, get_list) h.0.3
    | inr e ↦ rw (e, get_list) (values-plain k m h.1)
  ]

  add_values-IsPlain :
      (name : Text) (values : List Text) (dst : Header)
      → sensitive_header name policy ≡ false
      → is_empty name ≡ false
      → has name drop ≡ false
      → canonical name ≡ name
      → All (IsPlain policy drop) dst
      → All (IsPlain policy drop) (add_values name values dst)
  unfolding add_values
  add_values-IsPlain name [] dst open_ full kept same h = h
  add_values-IsPlain name (value ∷ values) dst open_ full kept same h =
      elim (Bool-cases (value == redacted)) [
        | inl e ↦ rw e (add_values-IsPlain name values dst open_ full kept same h)
        | inr e ↦
            rw (e, same)
              (add_values-IsPlain name values _ open_ full kept same (
                All-put name (get_list name dst ++ value ∷ []) dst
                  (
                    open_,
                    full,
                    kept,
                    All-append (λ v. v ≢ redacted) (get_list name dst) (value ∷ [])
                        (values-plain name dst h)
                        (
                          (λ same'.
                              absurd (ground (arith, (text_eq_iff value redacted).1 same', e))),
                          tt,
                        ),
                  )
                  h))
      ]

  forward_entry-IsPlain :
      (e : Text × List Text) (dst : Header)
      → All (IsPlain policy drop) dst
      → All (IsPlain policy drop) (forward_entry policy drop dst e)
  unfolding forward_entry
  forward_entry-IsPlain (name, values) dst h =
      elim (Bool-cases
        (sensitive_header name policy || has (canonical name) drop || is_empty (canonical name))) [
          | inl skip ↦ rw skip h
          | inr pass ↦ rw pass (
              add_values-IsPlain (canonical name) values dst
                (sensitive_header-canonical name policy ∙ ground (arith, pass))
                (ground (arith, pass)) (ground (arith, pass)) (canonical_idem name) h)
        ]

  forward-All-IsPlain :
      (src dst : Header)
      → All (IsPlain policy drop) dst
      → All (IsPlain policy drop) (foldl (forward_entry policy drop) dst src)
  forward-All-IsPlain [] dst h = h
  forward-All-IsPlain (e ∷ src) dst h =
      forward-All-IsPlain src (forward_entry policy drop dst e) (forward_entry-IsPlain e dst h)

-- The headers that concern one hop, or that the service sets itself, in the spelling of
-- `net/http`.
abbrev pub one_hop : List Text
one_hop =
    codes "Connection"
    ∷ codes "Forwarded"
    ∷ codes "Keep-Alive"
    ∷ codes "Proxy-Authenticate"
    ∷ codes "Proxy-Authorization"
    ∷ codes "Proxy-Connection"
    ∷ codes "Te"
    ∷ codes "Trailer"
    ∷ codes "Transfer-Encoding"
    ∷ codes "Upgrade"
    ∷ codes "X-Forwarded-For"
    ∷ codes "X-Forwarded-Host"
    ∷ codes "X-Forwarded-Proto"
    ∷ codes "X-Real-Ip"
    ∷ codes "X-Relaybox-Job-Id"
    ∷ codes "X-Relaybox-Request-Id"
    ∷ []

-- No value of a `Connection` header names it.
abbrev pub IsUnnamed : List Text → Text → Type 0
IsUnnamed connection name =
    All (λ value. All (λ token. canonical (trim_space token) ≢ name) (split b',' value)) connection

-- A header that may leave: its name is not sensitive, not of one hop and not named by `Connection`.
abbrev pub IsForwardable : TextSet → Header → Text × List Text → Type 0
IsForwardable policy src (name, values) =
    (sensitive_header name policy ≡ false)
    × All (λ h. h ≢ name) one_hop
    × IsUnnamed (get_list (codes "Connection") src) name
    × All (λ v. v ≢ redacted) values

put-keeps : (k j : Text) (m : TextSet) → has k m ≡ true → has k (put j tt m) ≡ true
put-keeps k j m h = ground (arith, get-put j k tt m)

put-has : (k : Text) (m : TextSet) → has k (put k tt m) ≡ true
put-has k m = ground (arith, get-put_self k tt m)

module _ (k : Text) where
  drop_tokens-keeps :
      (tokens : List Text) (drop : TextSet)
      → has k drop ≡ true
      → has k (drop_tokens tokens drop) ≡ true
  unfolding drop_tokens
  drop_tokens-keeps [] drop h = h
  drop_tokens-keeps (token ∷ tokens) drop h =
      elim (Bool-cases (is_empty (canonical (trim_space token)))) [
        | inl e ↦ rw e (drop_tokens-keeps tokens drop h)
        | inr e ↦
            rw e (drop_tokens-keeps tokens _ (put-keeps k (canonical (trim_space token)) drop h))
      ]

  drop_connection-keeps :
      (values : List Text) (drop : TextSet)
      → has k drop ≡ true
      → has k (drop_connection values drop) ≡ true
  unfolding drop_connection
  drop_connection-keeps [] drop h = h
  drop_connection-keeps (value ∷ values) drop h =
      drop_connection-keeps values _ (drop_tokens-keeps (split b',' value) drop h)

module _ (name : Text) (full : is_empty name ≡ false) where
  drop_tokens_unnamed :
      (tokens : List Text) (drop : TextSet)
      → has name (drop_tokens tokens drop) ≡ false
      → All (λ token. canonical (trim_space token) ≢ name) tokens
  unfolding drop_tokens
  drop_tokens_unnamed [] drop h = tt
  drop_tokens_unnamed (token ∷ tokens) drop h = (
    (λ same.
        let filled : is_empty (canonical (trim_space token)) ≡ false = rw same full in
        let there : has name (put (canonical (trim_space token)) tt drop) ≡ true =
          rw same (put-has name drop) in
        let kept = drop_tokens-keeps name tokens _ there in
        absurd (ground (arith, kept, rw filled at h))),
    drop_tokens_unnamed tokens _ h,
  )

  drop_connection-IsUnnamed :
      (values : List Text) (drop : TextSet)
      → has name (drop_connection values drop) ≡ false
      → IsUnnamed values name
  unfolding drop_connection
  drop_connection-IsUnnamed [] drop h = tt
  drop_connection-IsUnnamed (value ∷ values) drop h =
      let rest = drop_tokens (split b',' value) drop in
      (
        elim (Bool-cases (has name rest)) [
          | inl there ↦ absurd (ground (arith, drop_connection-keeps name values rest there, h))
          | inr gone ↦ drop_tokens_unnamed (split b',' value) drop gone
        ],
        drop_connection-IsUnnamed values rest h,
      )

one_hop-listed : All (λ h. has h (add_names hop_by_hop []) ≡ true) one_hop
unfolding add_names get put delete ◌==◌
one_hop-listed = (
  refl,
  (
    refl,
    (
      refl,
      (
        refl,
        (
          refl,
          (
            refl,
            (refl, (refl, (refl, (refl, (refl, (refl, (refl, (refl, (refl, (refl, tt)))))))))),
          ),
        ),
      ),
    ),
  ),
)

one_hop-dropped : (src : Header) → All (λ h. has h (dropped_names src) ≡ true) one_hop
unfolding dropped_names
one_hop-dropped src =
    All-imp
      (λ h. drop_connection-keeps h (get_list (codes "Connection") src) (add_names hop_by_hop []))
      one_hop one_hop-listed

not_dropped :
    (src : Header) (h name : Text)
    → has h (dropped_names src) ≡ true
    → h ≡ name
    → has name (dropped_names src) ≢ false
not_dropped src h name there same kept = ground (arith, rw same at there, kept)

IsPlain-IsForwardable :
    (src : Header) (policy : TextSet) (e : Text × List Text)
    → IsPlain policy (dropped_names src) e
    → IsForwardable policy src e
unfolding dropped_names
IsPlain-IsForwardable src policy (name, values) (open_, full, kept, clean) = (
  open_,
  All-imp {Q = λ h. h ≢ name} (λ h there same. not_dropped src h name there same kept) one_hop
      (one_hop-dropped src),
  drop_connection-IsUnnamed name full (get_list (codes "Connection") src) _ kept,
  clean,
)

-- Of the headers that are passed on to the target none is sensitive under the policy, none
-- concerns one hop, none is named by a value of `Connection`, and none has the marker of a redacted
-- value.
pub forward_headers-IsForwardable :
    (src : Header) (policy : TextSet) → All (IsForwardable policy src) (forward_headers src policy)
unfolding forward_headers
forward_headers-IsForwardable src policy =
    All-imp (IsPlain-IsForwardable src policy) (forward_headers src policy)
      (forward-All-IsPlain policy (dropped_names src) src [] tt)
