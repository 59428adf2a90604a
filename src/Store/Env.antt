-- ===== src/Store/Env.antt =====
-- What the store calls in the standard library and this development does not define: the JSON
-- encoder and the SHA-256 digest. A line of the log is an encoded event and a newline.
use relaybox.Prelude.{ℕ, ◌≡◌, ◌≢◌, Text, Bytes, All, Option, some, [], ◌∷◌, ◌++◌}
use relaybox.Store.Model.{Event}

pub record Env : Type 1 where
  -- `json.Marshal`, which can fail
  pub encode : Event → Option Bytes
  -- `json.Unmarshal`, which can fail
  pub decode : Bytes → Option Event
  -- `hex.EncodeToString(sha256.Sum256(body))`
  pub digest : Bytes → Text

-- The byte "\n".
abbrev pub newline : ℕ
newline = 10

-- An event is exact if the decoder gives it back, from its line with the newline on: that is so
-- where its strings are UTF-8. The encoder writes control characters as escapes, so an encoded
-- event holds no newline.
pub record IsExact (env : Env) (e : Event) : Type 0 where
  pub decodes : (b : Bytes) → env.encode e ≡ some b → env.decode (b ++ newline ∷ []) ≡ some e
  pub one_line : (b : Bytes) → env.encode e ≡ some b → All (λ c. c ≢ newline) b
