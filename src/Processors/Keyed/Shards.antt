-- ===== src/Processors/Keyed/Shards.antt =====
-- Instances of a processor that share its keys out, each with a store of its own.
use tpm_go.Prelude.{
  ◌≡◌, refl, sym, Bool, true, false, not, String, Option, none, some, List, [], ◌∷◌, ◌++◌, arith,
  Bool-cases, inl, inr, if◌then◌else◌, ap, ◌∙◌,
}
use tpm_go.Prelude.Int.{ℤ}
use tpm_go.Prelude.Text.{◌==◌, eq_iff}
use tpm_go.Prelude.Merge.{IsMerge, append_left, append_right}
use tpm_go.Events.Message.{ProtoMessage}
use tpm_go.Processors.Element.{Element, bytes, message, other, run_stream}
use tpm_go.Processors.Keyed.{SameAt, KeyedLaws}

module _ {A : Type 0} (key_of : A → String) (mine : String → Bool) where
  -- The elements whose message has one of the keys.
  unfoldable pub share : List (ℤ × ℤ × Element A) → List (ℤ × ℤ × Element A)
  share [] = []
  share ((t, u, message (some e)) ∷ es) =
      let rest = share es in if mine (key_of e) then (t, u, message (some e)) ∷ rest else rest
  share ((t, u, message none) ∷ es) = share es
  share ((t, u, bytes b) ∷ es) = share es
  share ((t, u, other) ∷ es) = share es

  pub share-cons :
      (x : ℤ × ℤ × Element A) (xs : List (ℤ × ℤ × Element A))
      → share (x ∷ xs) ≡ share (x ∷ []) ++ share xs
  unfolding share
  share-cons (t, u, bytes b) xs = refl
  share-cons (t, u, other) xs = refl
  share-cons (t, u, message none) xs = refl
  share-cons (t, u, message (some e)) xs = elim (Bool-cases (mine (key_of e))) [
    | inl is_mine ↦ rw is_mine refl
    | inr not_mine ↦ rw not_mine refl
  ]

abbrev pub others : (String → Bool) → String → Bool
others mine k = not (mine k)

module _ {S : Type 0} (live : ℤ → String → S → Option ProtoMessage) where
  -- The two stores show the same under each of the keys.
  abbrev pub SameOn : (String → Bool) → S → S → Type 0
  SameOn mine s s' = (k : String) → mine k ≡ true → SameAt live k s s'

module _ {S A B : Type 0} (process : ℤ → ℤ → Option A → S → S × List B)
    (live : ℤ → String → S → Option ProtoMessage) (key_of : A → String)
    (K : KeyedLaws live process key_of) where
  SameOn-here :
      (mine : String → Bool) (t u : ℤ) (e : A) (s s' : S)
      → mine (key_of e) ≡ true
      → SameOn live mine s s'
      → ((process t u (some e) s).1 ≡ (process t u (some e) s').1)
        × SameOn live mine (process t u (some e) s).0 (process t u (some e) s').0
  SameOn-here mine t u e s s' h same =
      let (sent, after) = K.here t u e s s' (same (key_of e) h) in
      (
        sent,
        λ k mine_k w. elim (Bool-cases (key_of e == k)) [
          | inl at_k ↦
              let is_k : key_of e ≡ k = ground (arith, eq_iff (key_of e) k) in
              rw (sym is_k) (after w)
          | inr elsewhere ↦
              K.elsewhere t u e s k elsewhere w
              ∙ same k mine_k w
              ∙ sym (K.elsewhere t u e s' k elsewhere w)
        ],
      )

  SameOn-elsewhere :
      (mine : String → Bool) (t u : ℤ) (e : A) (s s' : S)
      → mine (key_of e) ≡ false
      → SameOn live mine s s'
      → SameOn live mine (process t u (some e) s).0 s'
  SameOn-elsewhere mine t u e s s' h same k mine_k w =
      K.elsewhere t u e s k (ground (arith, eq_iff (key_of e) k, ap mine)) w ∙ same k mine_k w

  -- What two instances send, of which one has some of the keys and the other one the rest, each
  -- over a store of its own that shows the same under its keys, is merged what one instance sends.
  pub run_stream-shared :
      (mine : String → Bool) (es : List (ℤ × ℤ × Element A)) (s s1 s2 : S)
      → SameOn live mine s s1
      → SameOn live (others mine) s s2
      → IsMerge
          (run_stream process (share key_of mine es) s1).1
          (run_stream process (share key_of (others mine) es) s2).1
          (run_stream process es s).1
  unfolding share run_stream
  run_stream-shared mine [] s s1 s2 same1 same2 = IsMerge.done
  run_stream-shared mine ((t, u, bytes b) ∷ es) s s1 s2 same1 same2 =
      run_stream-shared mine es s s1 s2 same1 same2
  run_stream-shared mine ((t, u, other) ∷ es) s s1 s2 same1 same2 =
      run_stream-shared mine es s s1 s2 same1 same2
  run_stream-shared mine ((t, u, message none) ∷ es) s s1 s2 same1 same2 =
      rw (K.skip t u s) (run_stream-shared mine es s s1 s2 same1 same2)
  run_stream-shared mine ((t, u, message (some e)) ∷ es) s s1 s2 same1 same2 =
      elim (Bool-cases (mine (key_of e))) [
        | inl is_mine ↦
            let (sent, after) = SameOn-here mine t u e s s1 is_mine same1 in
            let rest =
              run_stream-shared mine es (process t u (some e) s).0 (process t u (some e) s1).0 s2
                after (SameOn-elsewhere (others mine) t u e s s2 (ap not is_mine) same2) in
            rw (is_mine, sent) (append_left (process t u (some e) s1).1 rest)
        | inr not_mine ↦
            let (sent, after) = SameOn-here (others mine) t u e s s2 (ap not not_mine) same2 in
            let rest =
              run_stream-shared mine es (process t u (some e) s).0 s1 (process t u (some e) s2).0
                (SameOn-elsewhere mine t u e s s1 not_mine same1) after in
            rw (not_mine, sent) (append_right (process t u (some e) s2).1 rest)
      ]
