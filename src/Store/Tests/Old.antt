-- ===== src/Store/Tests/Old.antt =====
-- An example of the theorem about redaction.
use relaybox.Prelude.{◌≡◌, refl, Text, Bytes, codes, Bool, false, Option, none, List, [], ◌∷◌, ◌==◌}
use relaybox.Store.Model.{Header, Request}
use relaybox.Store.State.{Store}
use relaybox.Store.Compact.{snapshot_records, write_records}
use relaybox.Store.Redact.{redact_headers, redact_runs, tables_need}
use relaybox.Store.Redact.Clean.{redact_headers-clean}
use relaybox.Store.Tests.{disk, env, hook, one, runs}

abbrev old_request : Request
old_request = record hook { headers = (codes "Cookie", codes "a" ∷ []) ∷ []; body = [] }

-- A store that was written before its headers were redacted.
abbrev old : Store
old = record one {
  image = record one.image {
    tables = record one.tables { requests = (codes "r", old_request) ∷ [] };
  };
}

abbrev is_cookie : Text → Bool
is_cookie name = name == codes "Cookie"

abbrev decode_headers : Bytes → Option (List Header)
decode_headers line = none

abbrev cleaned : Store
cleaned = (redact_headers env decode_headers disk.compaction is_cookie old).1

cleans : redact_headers env decode_headers disk.compaction is_cookie old ≡ (none, cleaned)
unfolding runs redact_runs snapshot_records write_records
cleans = refl

redact_headers-clean_example : tables_need is_cookie cleaned.tables ≡ false
redact_headers-clean_example =
    redact_headers-clean is_cookie env decode_headers disk.compaction old cleaned cleans
