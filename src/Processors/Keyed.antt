-- ===== src/Processors/Keyed.antt =====
-- What the processors that keep a state per key have in common, for the loop of their `doStream`:
-- a turn sees and changes what is live under the key of its message, and nothing else.
pub mod Shards
pub mod Machine
use tpm_go.Prelude.{◌≡◌, false, String, Option, none, some, List, []}
use tpm_go.Prelude.Int.{ℤ}
use tpm_go.Prelude.Text.{◌==◌}
use tpm_go.Events.Message.{ProtoMessage}

module _ {S : Type 0} (live : ℤ → String → S → Option ProtoMessage) where
  -- The two stores show the same under the key, at any instant.
  abbrev pub SameAt : String → S → S → Type 0
  SameAt k s s' = (w : ℤ) → live w k s ≡ live w k s'

  pub record KeyedLaws {A B : Type 0} (process : ℤ → ℤ → Option A → S → S × List B)
      (key_of : A → String) : Type 0 where
    pub skip : (t u : ℤ) (s : S) → process t u none s ≡ (s, [])
    pub elsewhere :
        (t u : ℤ) (e : A) (s : S) (k : String)
        → (key_of e == k) ≡ false
        → SameAt k (process t u (some e) s).0 s
    pub here :
        (t u : ℤ) (e : A) (s s' : S)
        → SameAt (key_of e) s s'
        → ((process t u (some e) s).1 ≡ (process t u (some e) s').1)
          × SameAt (key_of e) (process t u (some e) s).0 (process t u (some e) s').0
