-- ===== src/Processors/TravelTime/Route.antt =====
-- A route: the arrivals of one vehicle on one trip, each read before the state under the trip's
-- key expires.
use tpm_go.Prelude.{
  ℕ, ◌≡◌, refl, ap, Bool, true, false, Option, some, String, List, [], ◌∷◌, arith, ltb,
  if◌then◌else◌,
}
use tpm_go.Prelude.Int.{ℤ, pos, ◌+ℤ◌, ◌-ℤ◌, ◌≤ℤ◌, -ℤ_parts, +ℤ_parts, eq_of_parts, le→ltb_ℤ}
use tpm_go.Prelude.Text.{◌==◌, eq_refl}
use tpm_go.Events.Timestamp.{TimeOps, TimeLaws, hour}
use tpm_go.Events.Stop.{arrival, StopEvent}
use tpm_go.Events.Attributes
use tpm_go.Events.TravelTime.{TravelTimeEvent}
use tpm_go.Events.Message.{ProtoMessage, stop}
use tpm_go.StateStore.Interface.{StateStore, TypedLaws}
use tpm_go.Processors.Elapsed.{IsAt, seconds-IsAt}
use tpm_go.Processors.Element.{Element, message, new_stop_event, run_stream}
use tpm_go.Processors.TravelTime.{
  key_of, stop_of, travel_seconds, travel_time_event, process, do_stream,
}

-- The instants of the turn, the arrival, and the second of its timestamp.
abbrev pub Turns : Type 0
Turns = List (ℤ × ℤ × StopEvent × ℕ)

abbrev pub elements : Turns → List (ℤ × ℤ × Element StopEvent)
elements [] = []
elements ((t, u, e, n) ∷ es) = (t, u, message (some e)) ∷ elements es

abbrev pub same_stop : StopEvent → StopEvent → Bool
same_stop prev e = stop_of prev == stop_of e

-- The arrivals `es` under the key `k` after the arrival `prev`, whose state is kept until `end`.
-- A second arrival at the same stop does not prolong the state.
pub data IsRoute (T : TimeOps) (k : String) : ℤ → StopEvent → Turns → Type 0 where
  over : {end : ℤ} {prev : StopEvent} → IsRoute T k end prev []
  leg :
      {end t u : ℤ} {prev e : StopEvent} {n : ℕ} {es : Turns}
      → same_stop prev e ≡ false
      → e.stop_event_type ≡ arrival
      → key_of e ≡ k
      → t ≤ℤ end
      → IsAt T n e
      → IsRoute T k (u +ℤ hour) e es
      → IsRoute T k end prev ((t, u, e, n) ∷ es)
  stay :
      {end t u : ℤ} {prev e : StopEvent} {n : ℕ} {es : Turns}
      → same_stop prev e ≡ true
      → e.stop_event_type ≡ arrival
      → key_of e ≡ k
      → t ≤ℤ end
      → IsAt T n e
      → IsRoute T k end prev es
      → IsRoute T k end prev ((t, u, e, n) ∷ es)

-- The travel time of each leg that ends later than it began.
abbrev pub legs : TimeOps → StopEvent → ℕ → Turns → List TravelTimeEvent
legs T prev m [] = []
legs T prev m ((t, u, e, n) ∷ es) =
    let after = legs T e n es in
    let same = legs T prev m es in
    if same_stop prev e
    then same
    else (if ltb m n then travel_time_event T prev e ∷ after else after)

-- Every leg ends later than it began.
abbrev pub is_forward : StopEvent → ℕ → Turns → Bool
is_forward prev m [] = true
is_forward prev m ((t, u, e, n) ∷ es) =
    let after = is_forward e n es in
    let same = is_forward prev m es in
    if same_stop prev e then same else (if ltb m n then after else false)

-- The second of the arrival at the last stop.
abbrev pub last_second : StopEvent → ℕ → Turns → ℕ
last_second prev m [] = m
last_second prev m ((t, u, e, n) ∷ es) =
    let after = last_second e n es in
    let same = last_second prev m es in if same_stop prev e then same else after

abbrev pub total : List TravelTimeEvent → ℤ
total [] = pos 0
total (h ∷ hs) = h.travel_time_seconds +ℤ total hs

-- Each travel time begins at the stop where the one before it ended.
abbrev pub IsLinked : String → List TravelTimeEvent → Type 0
IsLinked at [] = Unit
IsLinked at (h ∷ hs) =
    (Attributes.get_origin_stop_id h.attributes ≡ at)
    × IsLinked (Attributes.get_destination_stop_id h.attributes) hs

is_forward_leg :
    (m n : ℕ) (rest : Bool)
    → (if ltb m n then rest else false) ≡ true
    → (ltb m n ≡ true) × (rest ≡ true)
is_forward_leg m n rest h = ground arith

module _ (T : TimeOps) (K : TimeLaws T) (S : StateStore)
    (live : ℤ → String → S.State → Option ProtoMessage) (L : TypedLaws S live new_stop_event)
    (k : String) where
  -- The previous arrival is what the store shows under the key.
  abbrev pub Shows : ℤ → StopEvent → S.State → Type 0
  Shows end prev s = (w : ℤ) → w ≤ℤ end → live w k s ≡ some (some (stop (some prev)))

  module _ (end t u : ℤ) (prev e : StopEvent) (m n : ℕ) (s : S.State)
      (is_arrival : e.stop_event_type ≡ arrival) (here : key_of e ≡ k) (soon : t ≤ℤ end)
      (at_m : IsAt T m prev) (at_n : IsAt T n e) (shows : Shows end prev s) where
    pub sent-leg :
        same_stop prev e ≡ false
        → (process T S t u (some e) s).1 ≡ (if ltb m n then travel_time_event T prev e ∷ [] else [])
    unfolding process
    sent-leg h =
        let seconds : travel_seconds T prev e ≡ pos n -ℤ pos m =
          unfold travel_seconds in seconds-IsAt T K prev e m n at_m at_n in
        ground (
          arith,
          L.get-live t (key_of e) s,
          shows t soon,
          ap (λ j. live t j s) here,
          -ℤ_parts (pos n) (pos m),
        )

    pub Shows-leg : same_stop prev e ≡ false → Shows (u +ℤ hour) e (process T S t u (some e) s).0
    unfolding process
    Shows-leg h w le = ground (
      arith,
      L.get-live t (key_of e) s,
      shows t soon,
      ap (λ j. live t j s) here,
      L.live-set u w (key_of e) k (some (stop (some e))) hour s refl refl,
      eq_refl k,
      le→ltb_ℤ (u +ℤ hour) w le,
    )

    stayed : same_stop prev e ≡ true → process T S t u (some e) s ≡ (s, [])
    unfolding process
    stayed h = ground (arith, L.get-live t (key_of e) s, shows t soon, ap (λ j. live t j s) here)

  -- Given a store that shows an arrival, the travel times that are sent for a route from there
  -- are exactly those of its legs that end later than they began; a second arrival at the same
  -- stop is passed over and changes nothing.
  pub do_stream-legs :
      (end : ℤ) (prev : StopEvent) (m : ℕ) (es : Turns) (s : S.State)
      → Shows end prev s
      → IsAt T m prev
      → IsRoute T k end prev es
      → (do_stream T S (elements es) s).1 ≡ legs T prev m es
  unfolding do_stream run_stream
  do_stream-legs end prev m es s shows am over = refl
  do_stream-legs end prev m es s shows am
        (leg {t = t} {u = u} {e = e} {n = n} {es = rest} moved is_arr here soon an after) =
      let later =
        do_stream-legs (u +ℤ hour) e n rest (process T S t u (some e) s).0
          (Shows-leg end t u prev e m n s is_arr here soon am an shows moved) an after in
      rw (moved, sent-leg end t u prev e m n s is_arr here soon am an shows moved, later)
        (ground arith)
  do_stream-legs end prev m es s shows am
        (stay {t = t} {u = u} {e = e} {n = n} {es = rest} same is_arr here soon an after) =
      rw (same, stayed end t u prev e m n s is_arr here soon am an shows same)
        (do_stream-legs end prev m rest s shows am after)

  legs-IsLinked :
      (end : ℤ) (prev : StopEvent) (m : ℕ) (es : Turns)
      → IsAt T m prev
      → IsRoute T k end prev es
      → is_forward prev m es ≡ true
      → IsLinked (stop_of prev) (legs T prev m es)
        × (total (legs T prev m es) ≡ pos (last_second prev m es) -ℤ pos m)
  unfolding travel_time_event
  legs-IsLinked end prev m es am over f = (tt, omega (arith, eq_of_parts, -ℤ_parts))
  legs-IsLinked end prev m es am
        (leg {u = u} {e = e} {n = n} {es = rest} moved is_arr here soon an after) f =
      let onward = is_forward_leg m n (is_forward e n rest) (rw moved at f) in
      let seconds : travel_seconds T prev e ≡ pos n -ℤ pos m =
        unfold travel_seconds in seconds-IsAt T K prev e m n am an in
      let ih = legs-IsLinked (u +ℤ hour) e n rest an after onward.1 in
      rw (moved, onward.0)
        ((refl, ih.0), rw (seconds, ih.1) (eq_of_parts _ _ (omega (arith, -ℤ_parts, +ℤ_parts))))
  legs-IsLinked end prev m es am (stay {es = rest} same is_arr here soon an after) f =
      rw same (legs-IsLinked end prev m rest am after (rw same at f))

  -- Where every leg of a route ends later than it began, the travel times that are sent are
  -- linked, each from the stop where the one before it ended, and add up to the seconds from the
  -- arrival that the store showed at first to the arrival at the last stop.
  pub do_stream-IsLinked :
      (end : ℤ) (prev : StopEvent) (m : ℕ) (es : Turns) (s : S.State)
      → Shows end prev s
      → IsAt T m prev
      → IsRoute T k end prev es
      → is_forward prev m es ≡ true
      → IsLinked (stop_of prev) (do_stream T S (elements es) s).1
        × (total (do_stream T S (elements es) s).1 ≡ pos (last_second prev m es) -ℤ pos m)
  do_stream-IsLinked end prev m es s shows am route f =
      rw (do_stream-legs end prev m es s shows am route) (legs-IsLinked end prev m es am route f)
