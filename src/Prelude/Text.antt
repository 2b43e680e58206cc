-- ===== src/Prelude/Text.antt =====
-- Texts: equality as a test, and concatenation under a name of its own beside that of lists.
use Prim.Native.String.{String, ◌++◌}
use mathlib.Core.Path.{◌≡◌}
use mathlib.Core.Logic.{◌≢◌}
use mathlib.Core.Bool.{false}
use native.Mathlib.Omega.{arith}
pub use text.Mathlib.Text.{◌==◌}
pub use text.Mathlib.TextEquality.{eq_iff}
pub use text.Mathlib.TextPositions.{eq_refl}
use text.Mathlib.TextLemmas.{append_assoc}

infixr 65 ◌<>◌
unfoldable pub ◌<>◌ : String → String → String
s <> t = s ++ t

pub <>_assoc : (s t u : String) → (s <> t) <> u ≡ s <> (t <> u)
unfolding ◌<>◌
<>_assoc s t u = append_assoc s t u

pub ne→== : (s t : String) → s ≢ t → (s == t) ≡ false
ne→== s t h = ground (arith, eq_iff s t)

pub ==→ne : (s t : String) → (s == t) ≡ false → s ≢ t
==→ne s t h e = ground (arith, eq_iff s t)
