-- ===== src/App/Tests/Gates.antt =====
-- Examples of the theorems about signatures, operators and targets.
use relaybox.Prelude.{◌≡◌, ◌↔◌, refl, Text, All, codes, Option, some, List, [], ◌∷◌, true, false}
use relaybox.Prelude.Try.{good, bad}
use relaybox.App.Auth.{Url, Crypto, verify, Access, Asking, granted, operator}
use relaybox.App.Auth.Granted.{IsSignature, verify_iff, IsOperator, operator-granted_iff}
use relaybox.App.Target.{Addr, v4, blocked_ip, dial_context, all_blocked}
use relaybox.App.Target.Ranges.{in_ranges, blocked_ranges, blocked_ip-ranges}
use relaybox.App.Target.Dialled.{IsFirstOpen, dial_context-first}

abbrev pub crypto : Crypto
crypto = record { mac = λ key message. 10 ∷ 171 ∷ []; base64 = λ b. codes "Cqs" }

verify_iff_example :
    (verify crypto (codes "s") (codes "sha256=0aAB") (codes "{}") ≡ true)
    ↔ IsSignature crypto (codes "s") (codes "sha256=0aAB") (codes "{}")
verify_iff_example = verify_iff crypto (codes "s") (codes "sha256=0aAB") (codes "{}")

abbrev pub target : Url
target = record {
  scheme = codes "https";
  host = codes "a.example";
  hostname = codes "a.example";
  has_user = false;
  path = [];
  raw_query = [];
  fragment = [];
}

abbrev pub parse_url : Text → Option Url
parse_url raw = some target

abbrev access : Access
access = record { operator_token = codes "token"; secure_cookies = true }

abbrev asking : Asking
asking = record {
  method = codes "POST";
  authorization = [];
  cookie = some (codes "Cqs");
  origin = codes "https://a.example";
  host = codes "A.example";
  has_tls = false;
}

operator-granted_iff_example :
    (operator parse_url crypto access asking ≡ granted) ↔ IsOperator parse_url access asking crypto
operator-granted_iff_example = operator-granted_iff parse_url access asking crypto

-- 10.1.2.3
blocked_ip-ranges_example : blocked_ip (v4 167838211) ≡ in_ranges 167838211 blocked_ranges
blocked_ip-ranges_example = blocked_ip-ranges 167838211

-- 10.1.2.3 and 8.8.8.8
abbrev addresses : List Addr
addresses = v4 167838211 ∷ v4 134744072 ∷ []

abbrev split_host_port : Text → Option (Text × Text)
split_host_port address = some (codes "a.example", codes "443")

abbrev lookup : Text → Option (List Addr)
lookup host = some addresses

dial_context-first_example :
    ((ip : Addr) (p : Text)
      → dial_context split_host_port lookup false (codes "a.example:443") ≡ good (ip, p)
      → (p ≡ codes "443") × IsFirstOpen addresses ip)
    × (All (λ ip. blocked_ip ip ≡ true) addresses
        → dial_context split_host_port lookup false (codes "a.example:443") ≡ bad all_blocked)
dial_context-first_example =
    dial_context-first split_host_port lookup (codes "a.example:443") (codes "a.example")
      (codes "443") addresses refl refl

abbrev pub parse_addr : Text → Option Addr
parse_addr host = some (v4 134744072)
