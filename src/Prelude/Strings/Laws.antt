-- ===== src/Prelude/Strings/Laws.antt =====
-- How cutting a text and putting it together again undo each other.
use Prim.Native.Nat.{ℕ}
use mathlib.Core.Path.{◌≡◌, refl, ap}
use mathlib.Core.Logic.{◌≢◌, inl, inr}
use mathlib.Core.Bool.{false}
use mathlib.Core.Option.{none, some}
use mathlib.Core.List.{List, [], ◌∷◌, ◌++◌}
use native.Mathlib.Omega.{arith}
use relaybox.Prelude.Tests.{nat_eq, Bool-cases, Option-cases}
use relaybox.Prelude.Lists.{All, All-append, length, length-append}
use relaybox.Prelude.Texts.{Text, ◌==◌, text_eq_iff, ==-refl}
use relaybox.Prelude.Strings.{contains, split, join, cut, push, strip_prefix, strip_suffix, Lacks}

join_behind : (sep : ℕ) (l : List Text) → l ≢ [] → join sep ([] ∷ l) ≡ sep ∷ join sep l
unfolding join
join_behind sep [] h = absurd (h refl)
join_behind sep (p ∷ ps) h = refl

push-ne-nil : (c : ℕ) (l : List Text) → push c l ≢ []
push-ne-nil c [] h = cc
push-ne-nil c (p ∷ ps) h = cc

pub split-ne-nil : (sep : ℕ) (s : Text) → split sep s ≢ []
unfolding split
split-ne-nil sep [] h = cc
split-ne-nil sep (c ∷ s) h = ground (arith, h, push-ne-nil c (split sep s))

join-push : (sep c : ℕ) (l : List Text) → l ≢ [] → join sep (push c l) ≡ c ∷ join sep l
unfolding join
join-push sep c [] h = absurd (h refl)
join-push sep c (p ∷ []) h = refl
join-push sep c (p ∷ q ∷ ps) h = refl

-- Joining the parts of a split gives the text back.
pub join-split : (sep : ℕ) (s : Text) → join sep (split sep s) ≡ s
unfolding split
join-split sep [] = unfold join in refl
join-split sep (c ∷ s) = elim (Bool-cases (nat_eq c sep)) [
  | inl e ↦
      let same : c ≡ sep = ground arith in
      rw e (rw (join_behind sep (split sep s) (split-ne-nil sep s), join-split sep s, same))
  | inr n ↦ rw n (rw (join-push sep c (split sep s) (split-ne-nil sep s), join-split sep s))
]

split-append : (sep : ℕ) (p s : Text) → Lacks sep p → split sep (p ++ sep ∷ s) ≡ p ∷ split sep s
unfolding split
split-append sep [] s h = ground arith
split-append sep (c ∷ p) s h =
    let no : nat_eq c sep ≡ false = ground (arith, h.0) in rw (no, split-append sep p s h.1)

split_whole : (sep : ℕ) (p : Text) → Lacks sep p → split sep p ≡ p ∷ []
unfolding split
split_whole sep [] h = refl
split_whole sep (c ∷ p) h =
    let no : nat_eq c sep ≡ false = ground (arith, h.0) in rw (no, split_whole sep p h.1)

-- Splitting a join gives the parts back where none of them holds the separator.
pub split-join :
    (sep : ℕ) (p : Text) (ps : List Text)
    → Lacks sep p
    → All (Lacks sep) ps
    → split sep (join sep (p ∷ ps)) ≡ p ∷ ps
unfolding join
split-join sep p [] h k = split_whole sep p h
split-join sep p (q ∷ ps) h k =
    rw (split-append sep p (join sep (q ∷ ps)) h, split-join sep q ps k.0 k.1)

pub cut-append : (sep : ℕ) (p s : Text) → Lacks sep p → cut sep (p ++ sep ∷ s) ≡ some (p, s)
unfolding cut
cut-append sep [] s h = ground arith
cut-append sep (c ∷ p) s h =
    let no : nat_eq c sep ≡ false = ground (arith, h.0) in rw (no, cut-append sep p s h.1)

pub cut_lacking : (sep : ℕ) (p : Text) → Lacks sep p → cut sep p ≡ none
unfolding cut
cut_lacking sep [] h = refl
cut_lacking sep (c ∷ p) h =
    let no : nat_eq c sep ≡ false = ground (arith, h.0) in rw (no, cut_lacking sep p h.1)

pub strip_prefix-append : (p s : Text) → strip_prefix p (p ++ s) ≡ some s
unfolding strip_prefix
strip_prefix-append [] s = refl
strip_prefix-append (c ∷ p) s = ground (arith, strip_prefix-append p s)

pub append-strip_prefix : (p s r : Text) → strip_prefix p s ≡ some r → s ≡ p ++ r
unfolding strip_prefix
append-strip_prefix [] s r h = ground arith
append-strip_prefix (c ∷ p) [] r h = cc
append-strip_prefix (c ∷ p) (d ∷ s) r h = ground (arith, append-strip_prefix p s r)

pub append-strip_suffix : (q s r : Text) → strip_suffix q s ≡ some r → s ≡ r ++ q
unfolding strip_suffix
append-strip_suffix q [] r h = ground (arith, text_eq_iff [] q)
append-strip_suffix q (c ∷ s) r h = elim (Bool-cases ((c ∷ s) == q)) [
  | inl e ↦ ground (arith, e, h, (text_eq_iff (c ∷ s) q).0 e)
  | inr n ↦ elim (Option-cases (strip_suffix q s)) [
    | inl absent ↦ absurd (ground (arith, n, absent, h))
    | inr (rest, found) ↦
        let same : (c ∷ rest) ≡ r = ground (arith, n, found, h) in
        rw (← same, append-strip_suffix q s rest found)
  ]
]

longer_ne : (c : ℕ) (s q : Text) → (c ∷ (s ++ q)) ≢ q
longer_ne c s q h = omega (arith, ap (λ (t : Text). length t) h, length-append s q)

pub strip_suffix-append : (q s : Text) → strip_suffix q (s ++ q) ≡ some s
unfolding strip_suffix
strip_suffix-append [] [] = unfold ◌==◌ in refl
strip_suffix-append (d ∷ q) [] = rw (==-refl (d ∷ q))
strip_suffix-append q (c ∷ s) = elim (Bool-cases ((c ∷ (s ++ q)) == q)) [
  | inl e ↦ absurd (longer_ne c s q ((text_eq_iff (c ∷ (s ++ q)) q).0 e))
  | inr n ↦ rw (n, strip_suffix-append q s)
]

pub append-cut : (sep : ℕ) (s a b : Text) → cut sep s ≡ some (a, b) → s ≡ a ++ sep ∷ b
unfolding cut
append-cut sep [] a b h = cc
append-cut sep (c ∷ s) a b h = elim (Bool-cases (nat_eq c sep)) [
  | inl e ↦
      let first : [] ≡ a = ground (arith, e, h) in
      let second : s ≡ b = ground (arith, e, h) in
      let same : c ≡ sep = ground (arith, e) in rw (← first, ← second, same)
  | inr n ↦ elim (Option-cases (cut sep s)) [
    | inl absent ↦ absurd (ground (arith, n, absent, h))
    | inr ((x, y), found) ↦
        let first : (c ∷ x) ≡ a = ground (arith, n, found, h) in
        let second : y ≡ b = ground (arith, n, found, h) in
        rw (← first, ← second, append-cut sep s x y found)
  ]
]

pub join-Lacks : (b sep : ℕ) (l : List Text) → sep ≢ b → All (Lacks b) l → Lacks b (join sep l)
unfolding join
join-Lacks b sep [] h k = tt
join-Lacks b sep (p ∷ []) h k = k.0
join-Lacks b sep (p ∷ q ∷ ps) h k =
    All-append (λ c. c ≢ b) p (sep ∷ join sep (q ∷ ps)) k.0 (h, join-Lacks b sep (q ∷ ps) h k.1)

pub contains_lacking : (b : ℕ) (s : Text) → Lacks b s → contains s (b ∷ []) ≡ false
unfolding contains
contains_lacking b [] h = refl
contains_lacking b (c ∷ s) h = ground (arith, contains_lacking b s h.1, h.0)
