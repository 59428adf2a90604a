-- ===== src/App/Headers/Redacted.antt =====
-- What redaction leaves, and that forwarding does not miss what it takes.
use mathlib.Core.List.{foldl}
use relaybox.Prelude.{
  ◌≡◌, refl, ap, ◌∙◌, Text, codes, false, ◌==◌, none, some, List, [], ◌∷◌, Bool-cases, inl, inr,
  text_eq_iff,
}
use relaybox.Map.{TextSet, get}
use relaybox.Store.Model.{Header}
use relaybox.App.Headers.{
  sensitive_header, redact_with_policy, redact_entry, dropped_names, drop_connection, add_names,
  hop_by_hop, forward_entry, forward_headers,
}

get-redact :
    (policy : TextSet) (k : Text) (h : Header)
    → sensitive_header k policy ≡ false
    → get k (redact_with_policy policy h) ≡ get k h
unfolding get redact_with_policy
get-redact policy k [] open_ = refl
get-redact policy k ((j, v) ∷ h) open_ = elim (Bool-cases (j == k)) [
  | inl e ↦
      let plain : sensitive_header j policy ≡ false =
        ap (λ x. sensitive_header x policy) ((text_eq_iff j k).0 e) ∙ open_ in
      rw (e, plain)
  | inr e ↦ rw (e, get-redact policy k h open_)
]

dropped-redact :
    (policy : TextSet) (h : Header)
    → sensitive_header (codes "Connection") policy ≡ false
    → dropped_names (redact_with_policy policy h) ≡ dropped_names h
unfolding dropped_names
dropped-redact policy h open_ =
    ap (λ o. drop_connection (elim o [ none ↦ [] | some l ↦ l ]) (add_names hop_by_hop []))
      (get-redact policy (codes "Connection") h open_)

forward_entry-redact :
    (policy drop : TextSet) (dst : Header) (e : Text × List Text)
    → forward_entry policy drop dst (redact_entry policy e) ≡ forward_entry policy drop dst e
unfolding forward_entry
forward_entry-redact policy drop dst (name, values) =
    elim (Bool-cases (sensitive_header name policy)) [ inl e ↦ rw e | inr e ↦ rw e ]

forward_all-redact :
    (policy drop : TextSet) (h dst : Header)
    → foldl (forward_entry policy drop) dst (redact_with_policy policy h)
      ≡ foldl (forward_entry policy drop) dst h
unfolding redact_with_policy
forward_all-redact policy drop [] dst = refl
forward_all-redact policy drop (e ∷ h) dst =
    ap (λ d. foldl (forward_entry policy drop) d (redact_with_policy policy h))
      (forward_entry-redact policy drop dst e)
    ∙ forward_all-redact policy drop h (forward_entry policy drop dst e)

-- Where the policy does not name `Connection`, forwarding the redacted headers of a capture passes
-- on exactly what forwarding the headers as they were delivered would.
pub forward-redact :
    (policy : TextSet) (h : Header)
    → sensitive_header (codes "Connection") policy ≡ false
    → forward_headers (redact_with_policy policy h) policy ≡ forward_headers h policy
unfolding forward_headers
forward-redact policy h open_ =
    rw (dropped-redact policy h open_) (forward_all-redact policy (dropped_names h) h [])
