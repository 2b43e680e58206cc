-- ===== src/Processors/Headway/Service.antt =====
-- A service: the departures at one stop, route and direction, each read before the state under
-- its key expires. A departure counts where it is of another vehicle than the last that counted,
-- and later.
use tpm_go.Prelude.{
  ℕ, ◌≡◌, ◌∙◌, refl, ap, Bool, true, false, ◌&&◌, not, Option, some, String, List, [], ◌∷◌, arith,
  ltb, if◌then◌else◌,
}
use tpm_go.Prelude.Int.{ℤ, pos, ◌+ℤ◌, ◌-ℤ◌, ◌≤ℤ◌, -ℤ_parts, +ℤ_parts, eq_of_parts, le→ltb_ℤ}
use tpm_go.Prelude.Text.{◌==◌, eq_refl}
use tpm_go.Events.Timestamp.{TimeOps, TimeLaws, hour}
use tpm_go.Events.Stop.{departure, StopEvent}
use tpm_go.Events.Headway.{HeadwayTimeEvent}
use tpm_go.Events.Message.{ProtoMessage, stop}
use tpm_go.StateStore.Interface.{StateStore, TypedLaws}
use tpm_go.Processors.Elapsed.{IsAt, seconds-IsAt}
use tpm_go.Processors.Element.{Element, message, new_stop_event, run_stream}
use tpm_go.Processors.Headway.{
  key_of, vehicle_of, headway_seconds, headway_event, process, do_stream,
}

-- The instants of the turn, the departure, and the second of its timestamp.
abbrev pub Turns : Type 0
Turns = List (ℤ × ℤ × StopEvent × ℕ)

abbrev pub elements : Turns → List (ℤ × ℤ × Element StopEvent)
elements [] = []
elements ((t, u, e, n) ∷ es) = (t, u, message (some e)) ∷ elements es

-- A departure counts if it is of another vehicle than the last that counted, and later.
abbrev pub counts : StopEvent → ℕ → StopEvent → ℕ → Bool
counts last m e n = not (vehicle_of last == vehicle_of e) && ltb m n

-- The departures `es` of the key `k` after the departure `last` at `m` seconds, whose state is
-- kept until `end`.
pub data IsService (T : TimeOps) (k : String) : ℤ → StopEvent → ℕ → Turns → Type 0 where
  over : {end : ℤ} {last : StopEvent} {m : ℕ} → IsService T k end last m []
  next :
      {end t u : ℤ} {last e : StopEvent} {m n : ℕ} {es : Turns}
      → counts last m e n ≡ true
      → e.stop_event_type ≡ departure
      → key_of e ≡ k
      → t ≤ℤ end
      → IsAt T n e
      → IsService T k (u +ℤ hour) e n es
      → IsService T k end last m ((t, u, e, n) ∷ es)
  pass :
      {end t u : ℤ} {last e : StopEvent} {m n : ℕ} {es : Turns}
      → counts last m e n ≡ false
      → e.stop_event_type ≡ departure
      → key_of e ≡ k
      → t ≤ℤ end
      → IsAt T n e
      → IsService T k end last m es
      → IsService T k end last m ((t, u, e, n) ∷ es)

-- One headway between each two consecutive departures that count.
abbrev pub headways : TimeOps → StopEvent → ℕ → Turns → List HeadwayTimeEvent
headways T last m [] = []
headways T last m ((t, u, e, n) ∷ es) =
    let after = headways T e n es in
    let same = headways T last m es in
    if counts last m e n then headway_event T last e ∷ after else same

abbrev pub total : List HeadwayTimeEvent → ℤ
total [] = pos 0
total (h ∷ hs) = h.headway_seconds +ℤ total hs

-- The second of the last departure that counts.
abbrev pub last_second : StopEvent → ℕ → Turns → ℕ
last_second last m [] = m
last_second last m ((t, u, e, n) ∷ es) =
    let after = last_second e n es in
    let same = last_second last m es in if counts last m e n then after else same

module _ (T : TimeOps) (K : TimeLaws T) (S : StateStore)
    (live : ℤ → String → S.State → Option ProtoMessage) (L : TypedLaws S live new_stop_event)
    (k : String) where
  -- The last departure that counted is what the store shows under the key.
  abbrev pub Shows : ℤ → StopEvent → S.State → Type 0
  Shows end last s = (w : ℤ) → w ≤ℤ end → live w k s ≡ some (some (stop (some last)))

  module _ (end t u : ℤ) (last e : StopEvent) (m n : ℕ) (s : S.State)
      (is_departure : e.stop_event_type ≡ departure) (here : key_of e ≡ k) (soon : t ≤ℤ end)
      (at_m : IsAt T m last) (at_n : IsAt T n e) (shows : Shows end last s) where
    pub counted :
        counts last m e n ≡ true
        → ((process T S t u (some e) s).1 ≡ headway_event T last e ∷ [])
          × Shows (u +ℤ hour) e (process T S t u (some e) s).0
    unfolding process
    counted h =
        let seconds : headway_seconds T last e ≡ pos n -ℤ pos m =
          unfold headway_seconds in seconds-IsAt T K last e m n at_m at_n in
        (
          ground (
            arith,
            L.get-live t (key_of e) s,
            shows t soon,
            ap (λ j. live t j s) here,
            -ℤ_parts (pos n) (pos m),
          ),
          λ w le. ground (
            arith,
            L.get-live t (key_of e) s,
            shows t soon,
            ap (λ j. live t j s) here,
            -ℤ_parts (pos n) (pos m),
            L.live-set u w (key_of e) k (some (stop (some e))) hour s refl refl,
            eq_refl k,
            le→ltb_ℤ (u +ℤ hour) w le,
          ),
        )

    passed : counts last m e n ≡ false → process T S t u (some e) s ≡ (s, [])
    unfolding process
    passed h =
        let seconds : headway_seconds T last e ≡ pos n -ℤ pos m =
          unfold headway_seconds in seconds-IsAt T K last e m n at_m at_n in
        ground (
          arith,
          L.get-live t (key_of e) s,
          shows t soon,
          ap (λ j. live t j s) here,
          -ℤ_parts (pos n) (pos m),
        )

  -- Given a store that shows a departure as the last that counted, the headways that are sent for
  -- a service from there are exactly those between consecutive departures that count: a departure
  -- of the same vehicle, or one that is not later, is passed over and changes nothing.
  pub do_stream-headways :
      (end : ℤ) (last : StopEvent) (m : ℕ) (es : Turns) (s : S.State)
      → Shows end last s
      → IsAt T m last
      → IsService T k end last m es
      → (do_stream T S (elements es) s).1 ≡ headways T last m es
  unfolding do_stream run_stream
  do_stream-headways end last m es s shows am over = refl
  do_stream-headways end last m es s shows am
        (next {t = t} {u = u} {e = e} {n = n} {es = rest} yes_counts dep here soon an after) =
      let (sent, shows') = counted end t u last e m n s dep here soon am an shows yes_counts in
      rw (yes_counts, sent)
        (ap (λ hs. headway_event T last e ∷ hs)
          (do_stream-headways (u +ℤ hour) e n rest (process T S t u (some e) s).0 shows' an after))
  do_stream-headways end last m es s shows am
        (pass {t = t} {u = u} {e = e} {n = n} {es = rest} not_counted dep here soon an after) =
      rw (not_counted, passed end t u last e m n s dep here soon am an shows not_counted)
        (do_stream-headways end last m rest s shows am after)

  total-headways :
      (end : ℤ) (last : StopEvent) (m : ℕ) (es : Turns)
      → IsAt T m last
      → IsService T k end last m es
      → total (headways T last m es) ≡ pos (last_second last m es) -ℤ pos m
  total-headways end last m es am over = omega (arith, eq_of_parts, -ℤ_parts)
  total-headways end last m es am
        (next {u = u} {e = e} {n = n} {es = rest} yes_counts dep here soon an after) =
      let seconds : headway_seconds T last e ≡ pos n -ℤ pos m =
        unfold headway_seconds in seconds-IsAt T K last e m n am an in
      let ih = total-headways (u +ℤ hour) e n rest an after in
      rw (yes_counts, ih)
        (unfold headway_event in rw seconds (eq_of_parts _ _ (omega (arith, -ℤ_parts, +ℤ_parts))))
  total-headways end last m es am (pass {es = rest} not_counted dep here soon an after) =
      rw not_counted (total-headways end last m rest am after)

  -- The headways that are sent for a service add up to the seconds between the departure that
  -- the store showed at first and the last departure that counts.
  total-do_stream :
      (end : ℤ) (last : StopEvent) (m : ℕ) (es : Turns) (s : S.State)
      → Shows end last s
      → IsAt T m last
      → IsService T k end last m es
      → total (do_stream T S (elements es) s).1 ≡ pos (last_second last m es) -ℤ pos m
  total-do_stream end last m es s shows am service =
      ap total (do_stream-headways end last m es s shows am service)
      ∙ total-headways end last m es am service
