-- ===== src/Dist/Zip.antt =====
-- `zipEndsAtEOF` of internal/distcheck/distcheck.go.
pub mod Window
use relaybox.Prelude.{
  ℕ, zero, suc, ◌+◌, ◌-◌, ◌*◌, Bytes, Bool, true, false, ◌&&◌, ◌||◌, List, [], ◌∷◌, length, drop,
  ltb, nat_eq, is_prefix, if◌then◌else◌,
}

-- `file[i]`, in range wherever the program reads it
unfoldable pub byte_at : ℕ → Bytes → ℕ
byte_at i [] = 0
byte_at zero (b ∷ file) = b
byte_at (suc i) (b ∷ file) = byte_at i file

-- "PK", 5, 6
abbrev end_signature : Bytes
end_signature = 80 ∷ 75 ∷ 5 ∷ 6 ∷ []

-- `int(file[offset+20]) | int(file[offset+21])<<8`, of bytes
abbrev pub comment_length : Bytes → ℕ
comment_length record_ = byte_at 20 record_ + 256 * byte_at 21 record_

-- An end record stands at the offset, and its comment ends where the file does.
unfoldable pub has_end_record : Bytes → ℕ → Bool
has_end_record file offset =
    is_prefix end_signature (drop offset file)
    && nat_eq (offset + 22 + comment_length (drop offset file)) (length file)

-- The loop from the offset `minimum + n` down to `minimum`.
unfoldable pub search_back : Bytes → ℕ → ℕ → Bool
search_back file minimum zero = has_end_record file minimum
search_back file minimum (suc n) =
    has_end_record file (minimum + suc n) || search_back file minimum n

unfoldable pub zip_ends_at_eof : Bytes → Bool
zip_ends_at_eof file =
    if ltb (length file) 22
    then false
    else let minimum = length file - 22 - 65535 in
      search_back file minimum (length file - 22 - minimum)
