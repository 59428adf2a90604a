-- ===== src/Store/Subscribe/CatchUp.antt =====
-- What a subscriber with a cursor is given, and when it is turned away.
use relaybox.Prelude.{
  sym, ◌∙◌, All, ℕ, ◌+◌, ◌-◌, ◌<◌, ◌≤◌, ◌≡◌, refl, ap, ◌⊎◌, inl, inr, List, [], ◌∷◌, ◌++◌, select,
  arith, ltb, Bool-cases,
}
use relaybox.Store.Model.{Event}
use relaybox.Store.Errors.{Error, ok, err}
use relaybox.Store.Env.{Env}
use relaybox.Store.Options.{Options}
use relaybox.Store.Tables.{RecordRef, Image}
use relaybox.Store.State.{Store}
use relaybox.Store.Apply.{encoded_size, trim_ring, append_ring, apply}
use relaybox.Store.Apply.Ring.{Ascends, IsRing, ring_size}
use relaybox.Store.Apply.Frame.{ring-apply_rows}
use relaybox.Store.Subscribe.{too_old, subscribe_from}

abbrev behind : ℕ → List Event → List Event
behind seq ring = select (λ e. ltb seq e.seq) ring

-- An event in a rising list has a smaller number than one further on.
before_last :
    (x : ℕ) (l : List Event) (e : Event) (rest : List Event)
    → All (λ f. x < f.seq) (l ++ e ∷ rest)
    → x < e.seq
before_last x [] e rest h = h.0
before_last x (y ∷ l) e rest h = before_last x l e rest h.1

-- What stands before the oldest event of the ring is not behind the cursor.
behind-gone :
    (seq n : ℕ) (gone : List Event) (oldest : Event) (ring : List Event)
    → Ascends (gone ++ oldest ∷ ring) n
    → oldest.seq ≤ seq + 1
    → behind seq (gone ++ oldest ∷ ring) ≡ behind seq (oldest ∷ ring)
unfolding select
behind-gone seq n [] oldest ring h k = refl
behind-gone seq n (g ∷ gone) oldest ring h k =
    ground (arith, before_last g.seq gone oldest ring h.0, behind-gone seq n gone oldest ring h.2 k)

-- Where the ring holds an event, and the last of those that have been published, a subscriber gets
-- exactly the published events behind its cursor, in their order, or it is told that its cursor is
-- too old: that is so where the oldest event of the ring does not follow the cursor at once.
pub subscribe_from_complete :
    (env : Env) (published : List Event) (s : Store) (seq : ℕ) (oldest : Event) (ring : List Event)
    → IsRing env s.options published s.image
    → s.ring ≡ oldest ∷ ring
    → ((seq + 1 < oldest.seq) × (subscribe_from seq s ≡ (err Error.event_backlog, s)))
      ⊎ ((oldest.seq ≤ seq + 1)
          × ((subscribe_from seq s).0 ≡ ok (select (λ e. ltb seq e.seq) published, s.next_channel)))
unfolding subscribe_from too_old
subscribe_from_complete env published s seq oldest ring v h =
    let gone : too_old s.ring seq ≡ too_old (oldest ∷ ring) seq = ap (λ r. too_old r seq) h in
    let all : published ≡ v.gone ++ oldest ∷ ring = v.last_of ∙ ap (λ r. v.gone ++ r) h in
    elim (Bool-cases (ltb (seq + 1) oldest.seq)) [
      | inl before ↦ inl (ground arith, ground (arith, gone))
      | inr within ↦
          let near : oldest.seq ≤ seq + 1 = ground arith in
          let same : behind seq published ≡ behind seq s.ring =
            ap (behind seq) all
            ∙ behind-gone seq s.seq v.gone oldest ring (rw all at v.rises) near
            ∙ ap (behind seq) (sym h) in
          inr (near, rw same (ground (arith, gone)))
    ]

module _ (env : Env) (o : Options) where
  trim_oversized :
      (ring : List Event) (e : Event) (bytes : ℕ)
      → o.max_catch_up_bytes < encoded_size env e
      → bytes ≡ ring_size env ring + encoded_size env e
      → (trim_ring env o (ring ++ e ∷ []) bytes).0 ≡ []
  unfolding trim_ring
  trim_oversized [] e bytes h k = ground arith
  trim_oversized (x ∷ ring) e bytes h k =
      ground (arith, trim_oversized ring e (bytes - encoded_size env x))

  oversized-empty :
      (published : List Event) (e : Event) (ref : RecordRef) (s : Image)
      → IsRing env o published s
      → o.max_catch_up_bytes < encoded_size env e
      → (apply env o e ref s).ring ≡ []
  unfolding apply append_ring
  oversized-empty published e ref s v big =
      let rows = ring-apply_rows o e ref s.tables in
      rw (rows.0, rows.1)
        (trim_oversized s.ring e (s.ring_bytes + encoded_size env e) big (omega (arith, v.counted)))

subscribe_empty :
    (s : Store) (cursor : ℕ) → s.ring ≡ [] → (subscribe_from cursor s).0 ≡ ok ([], s.next_channel)
unfolding subscribe_from too_old select
subscribe_empty s cursor h =
    ground (arith, ap (λ r. too_old r cursor) h, ap (λ r. behind cursor r) h)

-- Where the ring holds the last of the published events within its bounds, and an event with the
-- next number has been applied whose encoding is larger than the ring's byte bound,
-- a subscriber with any cursor gets no event and no error, the cursor just before that event
-- included.
pub oversized_event_lost :
    (env : Env) (published : List Event) (s : Store) (e : Event) (ref : RecordRef) (cursor : ℕ)
    → IsRing env s.options published s.image
    → e.seq ≡ s.seq + 1
    → s.options.max_catch_up_bytes < encoded_size env e
    → let t = record s { image = apply env s.options e ref s.image } in
      (t.seq ≡ s.seq + 1) × ((subscribe_from cursor t).0 ≡ ok ([], t.next_channel))
unfolding apply
oversized_event_lost env published s e ref cursor v next big = (
  ground arith,
  subscribe_empty _ cursor (oversized-empty env s.options published e ref s.image v big),
)
