-- ===== src/App/Target/Dialled.antt =====
-- What is dialled, and which targets are accepted.
use relaybox.Prelude.{
  ◌≡◌, refl, sym, ap, ◌∙◌, Text, true, false, Option, none, some, List, [], ◌∷◌, ◌++◌, All, arith,
  Bool-cases, inl, inr,
}
use relaybox.Prelude.Try.{bad, good}
use relaybox.App.Auth.{Url}
use relaybox.App.Target.{
  Addr, blocked_ip, dial_choice, dial_context, dialled, all_blocked, validate_target, check_host,
  check_url, bad_url,
}

abbrev Blocked : Addr → Type 0
Blocked ip = blocked_ip ip ≡ true

-- The address `ip` is the first of the list that is not blocked.
pub record IsFirstOpen (ips : List Addr) (ip : Addr) : Type 0 where
  pub before : List Addr
  pub after : List Addr
  pub whole : ips ≡ before ++ ip ∷ after
  pub skipped : All Blocked before
  pub allowed : blocked_ip ip ≡ false

later :
    {ip : Addr} (x : Addr) (ips : List Addr)
    → Blocked x
    → IsFirstOpen ips ip
    → IsFirstOpen (x ∷ ips) ip
later x ips blocked f = record {
  before = x ∷ f.before;
  after = f.after;
  whole = ap (λ l. x ∷ l) f.whole;
  skipped = (blocked, f.skipped);
  allowed = f.allowed;
}

dial_choice-first :
    (ips : List Addr) (ip : Addr) → dial_choice false ips ≡ some ip → IsFirstOpen ips ip
unfolding dial_choice
dial_choice-first [] ip h = cc
dial_choice-first (x ∷ ips) ip h = elim (Bool-cases (blocked_ip x)) [
  | inl blocked ↦ later x ips blocked (dial_choice-first ips ip (rw blocked at h))
  | inr open_ ↦
      let same : x ≡ ip = ground (arith, rw open_ at h) in
      record {
        before = [];
        after = ips;
        whole = ap (λ y. y ∷ ips) same;
        skipped = tt;
        allowed = ap blocked_ip (sym same) ∙ open_;
      }
]

dial_choice-none : (ips : List Addr) → All Blocked ips → dial_choice false ips ≡ none
unfolding dial_choice
dial_choice-none [] h = refl
dial_choice-none (x ∷ ips) h = rw h.0 (dial_choice-none ips h.1)

module _ (split_host_port : Text → Option (Text × Text)) (lookup : Text → Option (List Addr))
    (address host port : Text) (ips : List Addr)
    (splits : split_host_port address ≡ some (host, port)) (finds : lookup host ≡ some ips) where
  found : dial_context split_host_port lookup false address ≡ dialled port (dial_choice false ips)
  unfolding dial_context
  found = rw (splits, dial_context, finds) refl

  dialled-good :
      (o : Option Addr) (ip : Addr) (p : Text)
      → dialled port o ≡ good (ip, p)
      → (p ≡ port) × (o ≡ some ip)
  dialled-good none ip p h = cc
  dialled-good (some jp) ip p h = ground arith

  -- Where private targets are not allowed and a host resolves, what is dialled is the first of its
  -- addresses that is not blocked, at the port asked for; and where all are blocked, the dial fails.
  pub dial_context-first :
      ((ip : Addr) (p : Text)
        → dial_context split_host_port lookup false address ≡ good (ip, p)
        → (p ≡ port) × IsFirstOpen ips ip)
      × (All (λ ip. blocked_ip ip ≡ true) ips
          → dial_context split_host_port lookup false address ≡ bad all_blocked)
  unfolding dial_context
  dial_context-first = (
    (λ ip p h.
        let (same, chosen) = dialled-good (dial_choice false ips) ip p (sym found ∙ h) in
        (same, dial_choice-first ips ip chosen)),
    (λ h. found ∙ ap (dialled port) (dial_choice-none ips h)),
  )

check_host-open :
    (o : Option Addr) (ip : Addr) → check_host false o ≡ none → o ≡ some ip → blocked_ip ip ≡ false
check_host-open none ip h e = cc
check_host-open (some jp) ip h e =
    let same : jp ≡ ip = ground arith in
    elim (Bool-cases (blocked_ip jp)) [
      | inl blocked ↦ absurd (ground (arith, rw blocked at h))
      | inr open_ ↦ ap blocked_ip (sym same) ∙ open_
    ]

check_url-accepts :
    (parse_addr : Text → Option Addr) (o : Option Url)
    → check_url parse_addr false o ≡ none
    → (u : Url) × (o ≡ some u)
      × (bad_url u ≡ false)
      × ((ip : Addr) → parse_addr u.hostname ≡ some ip → blocked_ip ip ≡ false)
check_url-accepts parse_addr none h = cc
check_url-accepts parse_addr (some u) h = elim (Bool-cases (bad_url u)) [
  | inl bad_ ↦ absurd (ground (arith, rw bad_ at h))
  | inr fine ↦ (u, refl, fine, λ ip. check_host-open (parse_addr u.hostname) ip (rw fine at h))
]

-- Where private targets are not allowed, a forwarding URL that is accepted is an http or https URL
-- with a host and no user, and if its host is an address, that address is not blocked.
validate_target-accepts :
    (parse_url : Text → Option Url) (parse_addr : Text → Option Addr) (raw : Text)
    → validate_target parse_url parse_addr raw false ≡ none
    → (u : Url) × (parse_url raw ≡ some u)
      × (bad_url u ≡ false)
      × ((ip : Addr) → parse_addr u.hostname ≡ some ip → blocked_ip ip ≡ false)
unfolding validate_target
validate_target-accepts parse_url parse_addr raw h = check_url-accepts parse_addr (parse_url raw) h
