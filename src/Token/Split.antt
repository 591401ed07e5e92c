-- ===== src/Token/Split.antt =====
-- rust/src/token.rs: `split_jwt` and the compact form.
use Prim.Native.Char.{Char, code}
use Prim.Native.String.{String, [], ◌∷◌}
use text.Mathlib.TextLemmas.{nil-append, cons-append}
use text.Mathlib.TextEquality.{Char-path}
use mathlib.Core.List.{List, [], ◌∷◌}
use maxgame_admin_guard.Base.{
  ◌≡◌, ◌≢◌, ◌↔◌, refl, sym, ap, ap₂, ◌∙◌, false, inl, inr, ok, arith, All, subst, ◌==◌, ==_iff,
  Bool-cases,
}
use maxgame_admin_guard.Base.Text.{◌<>◌, trim, split, cons_piece, is_empty}
use maxgame_admin_guard.Token.{split_jwt, three_parts}

abbrev pub NoDot : String → Type 0
NoDot [] = Unit
NoDot (c ∷ s) = (code c ≢ b'.') × NoDot s

abbrev dot : Char
dot = "."

dot-append : (rest : String) → "." <> rest ≡ dot ∷ rest
dot-append rest = cons-append dot [] rest ∙ ap (λ (t : String). dot ∷ t) (nil-append rest)

-- The first piece holds no dot, and the dot after it ends it.
split-append : (h rest : String) → NoDot h → split b'.' (h <> ("." <> rest)) ≡ h ∷ split b'.' rest
unfolding split
split-append [] rest n = rw (nil-append, dot-append) refl
split-append (c ∷ h) rest n =
    rw (cons-append c h ("." <> rest)) (ground (arith, split-append h rest n.1))

split-NoDot : (s : String) → NoDot s → split b'.' s ≡ s ∷ []
unfolding split
split-NoDot [] n = refl
split-NoDot (c ∷ s) n = ground (arith, split-NoDot s n.1)

-- The pieces joined by dots again.
abbrev join : List String → String
join [] = []
join (s ∷ []) = s
join (s ∷ t ∷ ts) = s <> ("." <> join (t ∷ ts))

abbrev IsNil : List String → Type 0
IsNil [] = Unit
IsNil (s ∷ ss) = ⊥

cons_piece_inhabited : (c : Char) (ss : List String) → ¬ IsNil (cons_piece c ss)
cons_piece_inhabited c [] n = n
cons_piece_inhabited c (s ∷ ss) n = n

split_inhabited : (s : String) → ¬ IsNil (split b'.' s)
unfolding split
split_inhabited [] n = n
split_inhabited (c ∷ s) n = elim (Bool-cases (code c == b'.')) [
  | inl same ↦ rw same at n
  | inr other ↦ cons_piece_inhabited c (split b'.' s) (rw other at n)
]

join-cons_piece : (c : Char) (ss : List String) → join (cons_piece c ss) ≡ c ∷ join ss
join-cons_piece c [] = refl
join-cons_piece c (s ∷ []) = refl
join-cons_piece c (s ∷ t ∷ ts) = cons-append c s _

join-dot : (ss : List String) → ¬ IsNil ss → join ([] ∷ ss) ≡ dot ∷ join ss
join-dot [] n = absurd (n tt)
join-dot (s ∷ ss) n = nil-append _ ∙ dot-append _

join-split : (s : String) → join (split b'.' s) ≡ s
unfolding split
join-split [] = refl
join-split (c ∷ s) = elim (Bool-cases (code c == b'.')) [
  | inl same ↦ rw same (
      join-dot (split b'.' s) (split_inhabited s)
      ∙ ap₂ (λ (d : Char) (t : String). d ∷ t)
          (sym (Char-path c dot ((==_iff (code c) b'.').0 same))) (join-split s))
  | inr other ↦
      rw other (join-cons_piece c (split b'.' s) ∙ ap (λ (t : String). c ∷ t) (join-split s))
]

cons_piece-NoDot :
    (c : Char) (ss : List String) → code c ≢ b'.' → All NoDot ss → All NoDot (cons_piece c ss)
cons_piece-NoDot c [] n h = ((n, tt), tt)
cons_piece-NoDot c (s ∷ ss) n h = ((n, h.0), h.1)

pieces-NoDot : (s : String) → All NoDot (split b'.' s)
unfolding split
pieces-NoDot [] = (tt, tt)
pieces-NoDot (c ∷ s) = elim (Bool-cases (code c == b'.')) [
  | inl same ↦ rw same (tt, pieces-NoDot s)
  | inr other ↦ rw other (
      cons_piece-NoDot c (split b'.' s) (λ e. cc (other, (==_iff (code c) b'.').1 e))
        (pieces-NoDot s))
]

-- The compact form: three parts, none of them empty and none with a dot, joined by dots.
pub record IsCompact (token h p s : String) : Type 0 where
  pub joined : token ≡ h <> ("." <> (p <> ("." <> s)))
  pub plain : NoDot h × NoDot p × NoDot s
  pub full : (is_empty h ≡ false) × (is_empty p ≡ false) × (is_empty s ≡ false)

three_parts-ok :
    (ps : List String) (h p s : String)
    → three_parts ps ≡ ok (h, p, s)
    → (ps ≡ h ∷ p ∷ s ∷ []) × ((is_empty h ≡ false) × (is_empty p ≡ false) × (is_empty s ≡ false))
three_parts-ok [] h p s e = cc
three_parts-ok (a ∷ []) h p s e = cc
three_parts-ok (a ∷ b ∷ []) h p s e = cc
three_parts-ok (a ∷ b ∷ c ∷ []) h p s e = ground arith
three_parts-ok (a ∷ b ∷ c ∷ d ∷ ds) h p s e = cc

-- A token is split into three segments exactly if, trimmed, it is their compact form.
pub split_jwt_iff :
    (token h p s : String) → (split_jwt token ≡ ok (h, p, s)) ↔ IsCompact (trim token) h p s
unfolding split_jwt
split_jwt_iff token h p s = (there, back)
  where
    there : split_jwt token ≡ ok (h, p, s) → IsCompact (trim token) h p s
    there e =
        let (pieces, full) = three_parts-ok (split b'.' (trim token)) h p s e in
        let plain = subst (All NoDot) pieces (pieces-NoDot (trim token)) in
        record {
          joined = sym (join-split (trim token)) ∙ ap join pieces;
          plain = (plain.0, plain.1.0, plain.1.1.0);
          full = full;
        }

    back : IsCompact (trim token) h p s → split_jwt token ≡ ok (h, p, s)
    back c =
        rw
          (
            c.joined,
            split-append h (p <> ("." <> s)) c.plain.0,
            split-append p s c.plain.1,
            split-NoDot s c.plain.2,
          )
          (ground arith)
