-- ===== src/Store/Apply/Ring.antt =====
-- The catch-up ring: its bounds, and which of the events that have been published it holds.
use relaybox.Prelude.{
  ℕ, ◌+◌, ◌-◌, ◌≤◌, ◌<◌, ◌≡◌, refl, sym, ap, ◌∙◌, inl, inr, ◌||◌, ltb, Bool-cases, All, All-append,
  append_assoc, List, [], ◌∷◌, ◌++◌, length, arith,
}
use relaybox.Store.Model.{Event}
use relaybox.Store.Env.{Env}
use relaybox.Store.Options.{Options}
use relaybox.Store.Tables.{RecordRef, Image}
use relaybox.Store.Apply.{encoded_size, trim_ring, append_ring, apply}
use relaybox.Store.Apply.Frame.{ring-apply_rows}

-- The bytes of the events of a ring.
abbrev pub ring_size : Env → List Event → ℕ
ring_size env [] = 0
ring_size env (e ∷ ring) = encoded_size env e + ring_size env ring

-- The events have rising numbers, none above `n`.
abbrev pub Ascends : List Event → ℕ → Type 0
Ascends [] n = Unit
Ascends (e ∷ l) n = All (λ f. e.seq < f.seq) l × (e.seq ≤ n) × Ascends l n

-- The ring holds the last of the events that have been published, within its two bounds. Their
-- numbers rise, with gaps where a compaction has taken some for its records.
pub record IsRing (env : Env) (o : Options) (published : List Event) (s : Image) : Type 0 where
  pub counted : s.ring_bytes ≡ ring_size env s.ring
  pub few : length s.ring ≤ o.max_catch_up_events
  pub small : s.ring_bytes ≤ o.max_catch_up_bytes
  pub gone : List Event
  pub last_of : published ≡ gone ++ s.ring
  pub rises : Ascends published s.seq

pub Ascends-le : (l : List Event) (m n : ℕ) → m ≤ n → Ascends l m → Ascends l n
Ascends-le [] m n le h = tt
Ascends-le (e ∷ l) m n le h = (h.0, omega (arith, h.1), Ascends-le l m n le h.2)

below : (l : List Event) (m n : ℕ) → m < n → Ascends l m → All (λ f. f.seq < n) l
below [] m n lt h = tt
below (e ∷ l) m n lt h = (omega (arith, h.1), below l m n lt h.2)

Ascends-append :
    (l : List Event) (e : Event) (m n : ℕ)
    → Ascends l m
    → m < e.seq
    → e.seq ≤ n
    → Ascends (l ++ e ∷ []) n
Ascends-append [] e m n h lt le = (tt, le, tt)
Ascends-append (x ∷ l) e m n h lt le = (
  All-append (λ f. x.seq < f.seq) l (e ∷ []) h.0 (omega (arith, h.1), tt),
  omega (arith, h.1),
  Ascends-append l e m n h.2 lt le,
)

module _ (env : Env) (o : Options) where
  pub size-append :
      (ring : List Event) (e : Event)
      → ring_size env (ring ++ e ∷ []) ≡ ring_size env ring + encoded_size env e
  size-append [] e = omega arith
  size-append (x ∷ ring) e = omega (arith, size-append ring e)

  trim-bounds :
      (ring : List Event) (bytes : ℕ)
      → bytes ≡ ring_size env ring
      → let r = trim_ring env o ring bytes in
        (r.1 ≡ ring_size env r.0)
        × (length r.0 ≤ o.max_catch_up_events)
        × (r.1 ≤ o.max_catch_up_bytes)
  unfolding trim_ring
  trim-bounds [] bytes h = omega arith
  trim-bounds (e ∷ ring) bytes h = ground (arith, trim-bounds ring (bytes - encoded_size env e))

  -- What is trimmed off stands at the front.
  trim-front :
      (ring : List Event) (bytes : ℕ)
      → (front : List Event) × (ring ≡ front ++ (trim_ring env o ring bytes).0)
  unfolding trim_ring
  trim-front [] bytes = ([], refl)
  trim-front (e ∷ ring) bytes =
      let (front, h) = trim-front ring (bytes - encoded_size env e) in
      elim (Bool-cases
        (ltb o.max_catch_up_events (length (e ∷ ring)) || ltb o.max_catch_up_bytes bytes)) [
          | inl over ↦ (e ∷ front, rw (over, trim_ring) (ap (λ l. e ∷ l) h))
          | inr within ↦ ([], rw (within, trim_ring) refl)
        ]

  -- An event with a number above those published joins them, and the ring.
  pub apply-IsRing :
      (published : List Event) (n : ℕ) (e : Event) (ref : RecordRef) (s : Image)
      → IsRing env o published s
      → Ascends published n
      → n < e.seq
      → IsRing env o (published ++ e ∷ []) (apply env o e ref s)
  unfolding apply append_ring
  apply-IsRing published n e ref s v rises lt =
      let rows = ring-apply_rows o e ref s.tables in
      let bytes = s.ring_bytes + encoded_size env e in
      let ring = s.ring ++ e ∷ [] in
      let (counted, few, small) =
        trim-bounds ring bytes (omega (arith, v.counted, size-append s.ring e)) in
      let (front, split_) = trim-front ring bytes in
      rw (rows.0, rows.1)
        (record {
          counted = counted;
          few = few;
          small = small;
          gone = v.gone ++ front;
          last_of =
              ap (λ l. l ++ e ∷ []) v.last_of
              ∙ append_assoc v.gone s.ring (e ∷ [])
              ∙ ap (λ l. v.gone ++ l) split_
              ∙ sym (append_assoc v.gone front (trim_ring env o ring bytes).0);
          rises = Ascends-append published e n _ rises lt (ground arith);
        })
