-- ===== src/Prelude/Dash.antt =====
-- Texts joined by a dash, as the keys of the state stores are: where the first part has no dash,
-- the parts can be read back.
use Prim.Native.Char.{Char, code}
use Prim.Native.String.{String}
use mathlib.Core.Path.{◌≡◌, refl, ap, ap₂, sym, ◌∙◌}
use mathlib.Core.Logic.{◌≢◌}
use text.Mathlib.TextLemmas.{nil-append, cons-append, head-eq_of_cons-eq, tail-eq_of_cons-eq}
use tpm_go.Prelude.Text.{◌<>◌}

-- No character of the text is a dash.
abbrev pub HasNoDash : String → Type 0
HasNoDash String.[] = Unit
HasNoDash (String.◌∷◌ c s) = (code c ≢ 45) × HasNoDash s

cons-<> : (c : Char) (s t : String) → (String.◌∷◌ c s) <> t ≡ String.◌∷◌ c (s <> t)
unfolding ◌<>◌
cons-<> c s t = cons-append c s t

nil-<> : (t : String) → String.[] <> t ≡ t
unfolding ◌<>◌
nil-<> t = nil-append t

abbrev dash : Char
dash = "-"

dash-<> : (s : String) → "-" <> s ≡ String.◌∷◌ dash s
dash-<> s = cons-<> dash String.[] s ∙ ap (String.◌∷◌ dash) (nil-<> s)

-- The first character of the joined text is one of the part's, so no dash, or the dash.
first_differs :
    (c : Char) (a s t : String) → code c ≢ 45 → (String.◌∷◌ c a) <> "-" <> s ≡ "-" <> t → ⊥
first_differs c a s t no_dash e =
    no_dash (ap code (head-eq_of_cons-eq (sym (cons-<> c a ("-" <> s)) ∙ (e ∙ dash-<> t))))

-- Joined texts are equal only if both parts are, where the first parts have no dash.
pub dash-injective :
    (a b s t : String)
    → HasNoDash a
    → HasNoDash b
    → a <> "-" <> s ≡ b <> "-" <> t
    → (a ≡ b) × (s ≡ t)
dash-injective String.[] String.[] s t ha hb e = (
  refl,
  tail-eq_of_cons-eq (sym (nil-<> ("-" <> s) ∙ dash-<> s) ∙ (e ∙ (nil-<> ("-" <> t) ∙ dash-<> t))),
)
dash-injective String.[] (String.◌∷◌ c b) s t ha hb e =
    absurd (first_differs c b t s hb.0 (sym e ∙ nil-<> ("-" <> s)))
dash-injective (String.◌∷◌ c a) String.[] s t ha hb e =
    absurd (first_differs c a s t ha.0 (e ∙ nil-<> ("-" <> t)))
dash-injective (String.◌∷◌ c a) (String.◌∷◌ d b) s t ha hb e =
    let joined : String.◌∷◌ c (a <> "-" <> s) ≡ String.◌∷◌ d (b <> "-" <> t) =
      sym (cons-<> c a ("-" <> s)) ∙ (e ∙ cons-<> d b ("-" <> t)) in
    let rest = dash-injective a b s t ha.1 hb.1 (tail-eq_of_cons-eq joined) in
    (ap₂ String.◌∷◌ (head-eq_of_cons-eq joined) rest.0, rest.1)
