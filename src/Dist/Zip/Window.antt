-- ===== src/Dist/Zip/Window.antt =====
-- The window in which `zipEndsAtEOF` looks is large enough.
use relaybox.Prelude.{
  ℕ, zero, suc, ◌+◌, ◌-◌, ◌≤◌, ◌<◌, ◌≡◌, ◌≢◌, ◌↔◌, refl, sym, ap, ◌∙◌, inl, inr, Bytes, true, [],
  ◌∷◌, All, length, drop, ltb, arith, Bool-cases,
}
use relaybox.Dist.Zip.{byte_at, comment_length, has_end_record, search_back, zip_ends_at_eof}

abbrev pub IsByte : ℕ → Type 0
IsByte b = b < 256

byte_at-lt : (i : ℕ) (file : Bytes) → All IsByte file → byte_at i file < 256
unfolding byte_at
byte_at-lt i [] h = omega arith
byte_at-lt zero (b ∷ file) h = h.0
byte_at-lt (suc i) (b ∷ file) h = byte_at-lt i file h.1

All-drop : (n : ℕ) (file : Bytes) → All IsByte file → All IsByte (drop n file)
All-drop zero file h = h
All-drop (suc n) [] h = h
All-drop (suc n) (b ∷ file) h = All-drop n file h.1

comment_length-le : (file : Bytes) (n : ℕ) → All IsByte file → comment_length (drop n file) ≤ 65535
comment_length-le file n h = omega (
  arith,
  byte_at-lt 20 (drop n file) (All-drop n file h),
  byte_at-lt 21 (drop n file) (All-drop n file h),
)

search_back_sound :
    (file : Bytes) (minimum n : ℕ)
    → search_back file minimum n ≡ true
    → (offset : ℕ) × (has_end_record file offset ≡ true)
unfolding search_back
search_back_sound file minimum zero h = (minimum, h)
search_back_sound file minimum (suc n) h =
    elim (Bool-cases (has_end_record file (minimum + suc n))) [
      | inl e ↦ (minimum + suc n, e)
      | inr e ↦ search_back_sound file minimum n (rw e at h)
    ]

search_back_complete :
    (file : Bytes) (minimum n offset : ℕ)
    → minimum ≤ offset
    → offset ≤ minimum + n
    → has_end_record file offset ≡ true
    → search_back file minimum n ≡ true
unfolding search_back
search_back_complete file minimum zero offset low high h =
    let same : offset ≡ minimum = omega arith in ap (has_end_record file) (sym same) ∙ h
search_back_complete file minimum (suc n) offset low high h =
    elim (Bool-cases (has_end_record file (minimum + suc n))) [
      | inl e ↦ rw e refl
      | inr e ↦
          let apart : offset ≢ minimum + suc n =
            λ same. absurd (ground (arith, ap (has_end_record file) same, e, h)) in
          rw e (search_back_complete file minimum n offset low (omega (arith, apart)) h)
    ]

end_record-length :
    (file : Bytes) (offset : ℕ)
    → has_end_record file offset ≡ true
    → offset + 22 + comment_length (drop offset file) ≡ length file
unfolding has_end_record
end_record-length file offset h = ground (arith, h)

-- A file of bytes passes exactly if an end record stands anywhere in it whose comment ends with the
-- file: none lies before the window that is searched.
pub zip_ends_at_eof_iff :
    (file : Bytes)
    → All IsByte file
    → (zip_ends_at_eof file ≡ true) ↔ ((offset : ℕ) × (has_end_record file offset ≡ true))
unfolding zip_ends_at_eof
zip_ends_at_eof_iff file bytes = elim (Bool-cases (ltb (length file) 22)) [
  | inl short ↦ (
    (λ h. absurd (ground (arith, rw (short, zip_ends_at_eof) at h))),
    (λ (offset, h). absurd (ground (arith, end_record-length file offset h, short))),
  )
  | inr long ↦
      let minimum = length file - 22 - 65535 in
      (
        (λ h.
            search_back_sound file minimum (length file - 22 - minimum)
              (rw (long, zip_ends_at_eof) at h)),
        (λ (offset, h).
            let ends = end_record-length file offset h in
            let short_comment = comment_length-le file offset bytes in
            rw (long, zip_ends_at_eof)
              (search_back_complete file minimum (length file - 22 - minimum) offset (omega arith)
                (omega arith) h)),
      )
]
