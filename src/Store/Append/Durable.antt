-- ===== src/Store/Append/Durable.antt =====
-- What the log on disk is worth: a restart reads back the image in memory, whatever the disk
-- answers in the middle of an append and wherever a crash cuts the file.
use relaybox.Prelude.{
  ℕ, zero, suc, ◌+◌, ◌<◌, ◌≤◌, ◌^◌, ◌≡◌, ◌≢◌, refl, ap, ◌∙◌, Bytes, false, List, [], ◌∷◌, ◌++◌,
  length, take, All, All-take, length-append, take-length-append, arith,
}
use relaybox.Store.Model.{Event}
use relaybox.Store.Errors.{ok}
use relaybox.Store.Env.{Env, IsExact, newline}
use relaybox.Store.Options.{Options}
use relaybox.Store.State.{Store}
use relaybox.Store.Append.Line.{IsReady, recover-ready}
use relaybox.Store.Recover.{Progress, start, take_record, scan, opened, recover}
use relaybox.Store.Recover.Torn.{scan-append, scan-torn, scan-line, scan-good}

-- The file reads back as the image in memory, with no torn record at its end.
pub record IsDurable (env : Env) (s : Store) : Type 0 where
  pub progress : Progress
  pub reads : scan env s.options start [] s.at_path ≡ ok (progress, [])
  pub same_image : progress.image ≡ s.image
  pub same_count : progress.event_count ≡ s.event_count
  pub same_file : s.file ≡ s.at_path

take-append-le {ℓ} :
    {A : Type ℓ} (k : ℕ) (xs ys : List A) → k ≤ length xs → take k (xs ++ ys) ≡ take k xs
take-append-le zero xs ys h = refl
take-append-le (suc k) [] ys h = absurd (omega arith)
take-append-le (suc k) (x ∷ xs) ys h = ap (◌∷◌ x) (take-append-le k xs ys (omega arith))

pub recover-scan :
    (env : Env) (o : Options) (file : Bytes) (p : Progress) (torn : Bytes)
    → scan env o start [] file ≡ ok (p, torn)
    → recover env o file ≡ ok (opened o p (take p.good file))
unfolding recover
recover-scan env o file p torn h = rw h

module _ (env : Env) (s : Store) (v : IsDurable env s) where
  pub good-length : v.progress.good ≡ length s.at_path
  good-length = omega (arith, scan-good env s.options start [] s.at_path v.progress [] v.reads)

  -- After bytes without a newline at the end of a log that reads back, a restart reads the same
  -- image and the same count of events, from the file without those bytes.
  pub recover-torn :
      (f : Bytes)
      → All (λ c. c ≢ newline) f
      → (t : Store) × (recover env s.options (s.at_path ++ f) ≡ ok t)
        × (t.image ≡ s.image)
        × (t.event_count ≡ s.event_count)
        × (t.file ≡ s.at_path)
  unfolding opened
  recover-torn f h =
      (opened s.options v.progress s.at_path, reopens, v.same_image, v.same_count, refl)
    where
      read : scan env s.options start [] (s.at_path ++ f) ≡ ok (v.progress, f)
      read = rw (scan-append, v.reads, scan-torn env s.options v.progress [] f h)

      reopens : recover env s.options (s.at_path ++ f) ≡ ok (opened s.options v.progress s.at_path)
      reopens = rw (
        recover-scan env s.options (s.at_path ++ f) v.progress f read,
        good-length,
        take-length-append s.at_path f,
      )

  module _ (e : Event) (line : Bytes) (x : IsExact env e) (r : IsReady env s e line)
      (next : e.seq ≡ s.seq + 1) (room : s.seq + 1 < 2 ^ 64) (plain : e.snapshot ≡ false) where
    -- A crash in the middle of the line: the bytes that got there hold no newline.
    pub torn-line : (k : ℕ) → k < length line → All (λ c. c ≢ newline) (take k line)
    torn-line k h =
        let short : k ≤ length r.body =
          omega (arith, ap length r.ends, length-append r.body (newline ∷ [])) in
        rw (r.ends, take-append-le k r.body (newline ∷ []) short)
          (All-take (λ c. c ≢ newline) k r.body (x.one_line r.body r.encoded))

    scan-ready :
        scan env s.options v.progress [] line
        ≡ ok (take_record env s.options v.progress (length line) e, [])
    scan-ready = rw r.ends (
        scan-line env s.options v.progress [] r.body (x.one_line r.body r.encoded)
        ∙ rw (
            rw r.ends at
              (recover-ready env s.options s v.progress e line x r v.same_image next room plain)))

    pub scan-whole :
        scan env s.options start [] (s.at_path ++ line)
        ≡ ok (take_record env s.options v.progress (length line) e, [])
    scan-whole = rw (scan-append, v.reads) scan-ready
