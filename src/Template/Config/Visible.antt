-- ===== src/Template/Config/Visible.antt =====
-- template/src/config.rs: the process's environment, which answers no blank values.
use Prim.Native.Char.{Char}
use maxgame_admin_guard.Base.{
  ℕ, ◌⊎◌, String, ◌≡◌, ◌∙◌, refl, ap, true, false, not, Option, none, some, List, [], ◌∷◌, arith,
  Option-cases, inl, inr,
}
use maxgame_admin_guard.Base.Text.{
  ◌<>◌, trim, is_empty, starts_with, joined, filter, has_visible, has_visible-append, is_empty-trim,
  is_whitespace, decimal, decimal-visible,
}
use maxgame_admin_guard.Jwks.{unwrap_or}
use maxgame_admin_guard.Template.Config.{
  system_env, as_str, AppEnv, development, staging, production,
}

-- A text with a character that is no white space.
abbrev pub IsVisible : String → Type 0
IsVisible s = is_empty (trim s) ≡ false

visible-IsVisible : (s : String) → has_visible s ≡ true → IsVisible s
visible-IsVisible s h = is_empty-trim s ∙ ap not h

IsVisible-visible : (s : String) → IsVisible s → has_visible s ≡ true
IsVisible-visible s h = ground (arith, h, is_empty-trim s)

pub append-IsVisible : (s t : String) → IsVisible t → IsVisible (s <> t)
append-IsVisible s t h =
    visible-IsVisible (s <> t) (ground (arith, has_visible-append s t, IsVisible-visible t h))

pub decimal-IsVisible : (n : ℕ) → IsVisible (decimal n)
decimal-IsVisible n = visible-IsVisible (decimal n) (decimal-visible n)

pub rooted-IsVisible : (s : String) → starts_with s "/" ≡ true → IsVisible s
unfolding starts_with
rooted-IsVisible String.[] h = cc h
rooted-IsVisible (String.◌∷◌ c s) h =
    visible-IsVisible (String.◌∷◌ c s) (unfold has_visible is_whitespace in ground (arith, h))

pub joined-IsVisible :
    (d : Char) (o : String) (os : List String) → IsVisible o → IsVisible (joined d (o ∷ os))
unfolding joined
joined-IsVisible d o [] h = h
joined-IsVisible d o (s ∷ os) h =
    visible-IsVisible (o <> String.◌∷◌ d (joined d (s ∷ os))) (
      ground
        (arith, has_visible-append o (String.◌∷◌ d (joined d (s ∷ os))), IsVisible-visible o h))

pub as_str-IsVisible : (e : AppEnv) → IsVisible (as_str e)
unfolding as_str
as_str-IsVisible development =
    visible-IsVisible "development" (unfold has_visible is_whitespace in refl)
as_str-IsVisible staging = visible-IsVisible "staging" (unfold has_visible is_whitespace in refl)
as_str-IsVisible production =
    visible-IsVisible "production" (unfold has_visible is_whitespace in refl)

module _ (var : String → Option String) where
  pub said : (key v : String) → var key ≡ some v → IsVisible v → system_env var key ≡ some v
  unfolding system_env
  said key v e h = rw e (rw h refl)

  -- A variable that is not set or blank counts as the empty text.
  pub said-or_empty :
      (key v : String)
      → var key ≡ some v
      → (v ≡ "") ⊎ IsVisible v
      → unwrap_or (system_env var key) "" ≡ v
  unfolding system_env
  said-or_empty key v e (inl blank) = rw (e, blank) (unfold trim is_empty in refl)
  said-or_empty key v e (inr h) = rw e (rw h refl)

  kept :
      (o : Option String) (v : String)
      → filter (λ s. not (is_empty (trim s))) o ≡ some v
      → IsVisible v
  kept none v h = cc h
  kept (some s) v h = ground (arith, h)

  -- What the process's environment answers is visible.
  pub answer-IsVisible : (key v : String) → system_env var key ≡ some v → IsVisible v
  unfolding system_env
  answer-IsVisible key v h = kept (var key) v h

  pub unwrap_or-IsVisible :
      (key default : String)
      → IsVisible default
      → IsVisible (unwrap_or (system_env var key) default)
  unwrap_or-IsVisible key default h = elim (Option-cases (system_env var key)) [
    | inl e ↦ rw e h
    | inr (v, e) ↦ rw e (answer-IsVisible key v e)
  ]
