-- ===== src/Base/Text/Trimmed.antt =====
-- What trimming leaves cannot be trimmed further, and has no character that was not there.
use Prim.Native.Nat.{ℕ}
use Prim.Native.Char.{Char, code}
use Prim.Native.String.{String, [], ◌∷◌}
use mathlib.Core.Path.{◌≡◌, refl, ◌∙◌, ap, subst}
use mathlib.Core.Logic.{◌⊎◌, inl, inr}
use mathlib.Core.Bool.{Bool, true, false, not}
use mathlib.Core.List.{List}
use native.Mathlib.Omega.{arith}
use text.Mathlib.TextLemmas.{nil-append, cons-append}
use maxgame_admin_guard.Base.Lists.{All}
use maxgame_admin_guard.Base.Tests.{◌==◌, Bool-cases}
use maxgame_admin_guard.Base.Text.Trim.{
  ◌<>◌, is_whitespace, trim_start_matches, cons_trimmed, trim_end_matches, trim,
}
use maxgame_admin_guard.Base.Text.Split.{cons_piece, split}
use maxgame_admin_guard.Base.Text.Joined.{lacks}

module _ (p : ℕ → Bool) where
  cons_trimmed-kept :
      (c : Char) (t : String)
      → trim_end_matches p t ≡ t
      → trim_end_matches p (cons_trimmed p c t) ≡ cons_trimmed p c t
  unfolding trim_end_matches
  cons_trimmed-kept c [] h = elim (Bool-cases (p (code c))) [
    | inl dropped ↦ rw dropped refl
    | inr kept ↦ rw kept (rw kept refl)
  ]
  cons_trimmed-kept c (d ∷ t) h = ap (cons_trimmed p c) h

  -- The character goes with the whole text, or stays before it.
  cons_trimmed-cases :
      (c : Char) (t : String) → (cons_trimmed p c t ≡ []) ⊎ (cons_trimmed p c t ≡ c ∷ t)
  cons_trimmed-cases c [] = elim (Bool-cases (p (code c))) [
    | inl dropped ↦ inl (rw dropped refl)
    | inr kept ↦ inr (rw kept refl)
  ]
  cons_trimmed-cases c (d ∷ t) = inr refl

  pub trim_end-idempotent :
      (s : String) → trim_end_matches p (trim_end_matches p s) ≡ trim_end_matches p s
  unfolding trim_end_matches
  trim_end-idempotent [] = refl
  trim_end-idempotent (c ∷ s) = cons_trimmed-kept c (trim_end_matches p s) (trim_end-idempotent s)

  -- A character to trim after a text goes with what goes of the text.
  pub trim_end-append :
      (s : String) (c : Char)
      → p (code c) ≡ true
      → trim_end_matches p (s <> (c ∷ [])) ≡ trim_end_matches p s
  unfolding trim_end_matches
  trim_end-append [] c h = rw (nil-append (c ∷ [])) (rw h refl)
  trim_end-append (b ∷ s) c h =
      rw (cons-append b s (c ∷ [])) (ap (cons_trimmed p b) (trim_end-append s c h))

  -- A text that begins with no such character, or is empty.
  unfoldable starts_kept : String → Bool
  starts_kept [] = true
  starts_kept (c ∷ s) = not (p (code c))

  trim_start-kept : (s : String) → starts_kept s ≡ true → trim_start_matches p s ≡ s
  unfolding starts_kept trim_start_matches
  trim_start-kept [] h = refl
  trim_start-kept (c ∷ s) h = ground (arith, h)

  starts_kept-trim_start : (s : String) → starts_kept (trim_start_matches p s) ≡ true
  unfolding starts_kept trim_start_matches
  starts_kept-trim_start [] = refl
  starts_kept-trim_start (c ∷ s) = ground (arith, starts_kept-trim_start s)

  starts_kept-trim_end :
      (s : String) → starts_kept s ≡ true → starts_kept (trim_end_matches p s) ≡ true
  unfolding starts_kept trim_end_matches
  starts_kept-trim_end [] h = refl
  starts_kept-trim_end (c ∷ s) h = elim (cons_trimmed-cases c (trim_end_matches p s)) [
    | inl gone ↦ rw gone refl
    | inr kept ↦ rw kept h
  ]

pub trim-idempotent : (s : String) → trim (trim s) ≡ trim s
unfolding trim
trim-idempotent s =
    let t = trim_start_matches is_whitespace s in
    ap (trim_end_matches is_whitespace) (
      trim_start-kept is_whitespace (trim_end_matches is_whitespace t)
        (starts_kept-trim_end is_whitespace t (starts_kept-trim_start is_whitespace s)))
    ∙ trim_end-idempotent is_whitespace t

lacks-trim_start :
    (p : ℕ → Bool) (d : ℕ) (s : String) → lacks d s ≡ true → lacks d (trim_start_matches p s) ≡ true
unfolding lacks trim_start_matches
lacks-trim_start p d [] h = refl
lacks-trim_start p d (c ∷ s) h = ground (arith, h, lacks-trim_start p d s (ground arith))

lacks-trim_end :
    (p : ℕ → Bool) (d : ℕ) (s : String) → lacks d s ≡ true → lacks d (trim_end_matches p s) ≡ true
unfolding lacks trim_end_matches
lacks-trim_end p d [] h = refl
lacks-trim_end p d (c ∷ s) h = elim (cons_trimmed-cases p c (trim_end_matches p s)) [
  | inl gone ↦ rw gone refl
  | inr kept ↦ rw kept (ground (arith, h, lacks-trim_end p d s (ground arith)))
]

pub lacks-trim : (d : ℕ) (s : String) → lacks d s ≡ true → lacks d (trim s) ≡ true
unfolding trim
lacks-trim d s h =
    lacks-trim_end is_whitespace d (trim_start_matches is_whitespace s)
      (lacks-trim_start is_whitespace d s h)

cons_piece-lacks :
    (d : ℕ) (c : Char) (ps : List String)
    → (code c == d) ≡ false
    → All (λ r. lacks d r ≡ true) ps
    → All (λ r. lacks d r ≡ true) (cons_piece c ps)
unfolding lacks
cons_piece-lacks d c List.[] h hs = (ground (arith, h), tt)
cons_piece-lacks d c (List.◌∷◌ q qs) h (k, ks) = (ground (arith, h, k), ks)

-- No piece has the separator.
pub lacks-split : (d : ℕ) (s : String) → All (λ r. lacks d r ≡ true) (split d s)
unfolding lacks split
lacks-split d [] = (refl, tt)
lacks-split d (c ∷ s) = elim (Bool-cases (code c == d)) [
  | inl here ↦
      subst (All (λ r. lacks d r ≡ true)) {x = List.◌∷◌ [] (split d s)} (ground (arith, here))
        (refl, lacks-split d s)
  | inr later ↦
      subst (All (λ r. lacks d r ≡ true)) {x = cons_piece c (split d s)} (ground (arith, later))
        (cons_piece-lacks d c (split d s) later (lacks-split d s))
]
