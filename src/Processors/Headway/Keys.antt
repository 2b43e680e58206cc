-- ===== src/Processors/Headway/Keys.antt =====
-- The key under which the headway processor keeps its state: the fields of a `HeadwayStopKey`
-- joined by dashes.
use tpm_go.Prelude.{
  ℕ, ◌<◌, ◌≡◌, ◌≢◌, refl, sym, ap, false, String, Option, none, some, [], ◌∷◌, arith,
}
use Prim.Native.String.{◌++◌, count}
use text.Mathlib.TextLemmas.{length-append}
use tpm_go.Prelude.Int.{ℤ, ◌+ℤ◌, ◌≤ℤ◌, le→ltb_ℤ}
use tpm_go.Prelude.Text.{◌<>◌, ◌==◌, <>_assoc, eq_refl}
use tpm_go.Prelude.Dash.{HasNoDash, dash-injective}
use tpm_go.Events.Timestamp.{TimeOps, TimeLaws, hour}
use tpm_go.Events.Attributes
use tpm_go.Events.Stop.{departure, StopEvent}
use tpm_go.Events.Message.{ProtoMessage, stop}
use tpm_go.StateStore.Interface.{StateStore, TypedLaws}
use tpm_go.Processors.Elapsed.{IsAt}
use tpm_go.Processors.Element.{message, new_stop_event, run_stream}
use tpm_go.Processors.Headway.{
  HeadwayStopKey, key_string, key_of, vehicle_of, headway_event, process, do_stream,
}
use tpm_go.Processors.Headway.Service.{Shows, counted}

-- Two headway keys with the same text are the same key, where their routes and directions have
-- no dash.
key_string-injective :
    (k j : HeadwayStopKey)
    → HasNoDash k.route_id
    → HasNoDash k.direction_id
    → HasNoDash j.route_id
    → HasNoDash j.direction_id
    → key_string k ≡ key_string j
    → k ≡ j
unfolding key_string
key_string-injective k j kr kd jr jd e =
    let (route, rest) = dash-injective k.route_id j.route_id _ _ kr jr e in
    let (direction, stop_id) = dash-injective k.direction_id j.direction_id _ _ kd jd rest in
    cc (route, direction, stop_id)

-- The route `r-x` in the direction `y` at the stop `s`, and the route `r` in the direction `x` at the
-- stop `y-s`.
key_string_shared :
    (r x y s : String)
    → key_string (record { route_id = r <> "-" <> x; direction_id = y; stop_id = s })
      ≡ key_string (record { route_id = r; direction_id = x; stop_id = y <> "-" <> s })
unfolding key_string
key_string_shared r x y s = simp <>_assoc

longer : (y s : String) → s ≢ y <> "-" <> s
unfolding ◌<>◌
longer y s e =
    let whole = length-append y ("-" ++ s) in
    let dash = length-append "-" s in let same = ap count e in omega arith

-- The departure is of this route and direction, at this stop.
abbrev pub IsOf : String → String → String → StopEvent → Type 0
IsOf route direction stop_id e =
    (e.stop_event_type ≡ departure)
    × (Attributes.get_route_id e.attributes ≡ route)
    × (Attributes.get_direction_id e.attributes ≡ direction)
    × (Attributes.get_stop_id e.attributes ≡ stop_id)

key_of-shared :
    (r x y s : String) (e d : StopEvent)
    → IsOf (r <> "-" <> x) y s e
    → IsOf r x (y <> "-" <> s) d
    → key_of d ≡ key_of e
unfolding key_of
key_of-shared r x y s e d (_, e_route, e_direction, e_stop) (_, d_route, d_direction, d_stop) =
    rw (e_route, e_direction, e_stop, d_route, d_direction, d_stop)
      (sym (key_string_shared r x y s))

module _ (T : TimeOps) (K : TimeLaws T) (S : StateStore)
    (live : ℤ → String → S.State → Option ProtoMessage) (L : TypedLaws S live new_stop_event) where
  first_stored :
      (t u : ℤ) (e : StopEvent) (s : S.State)
      → e.stop_event_type ≡ departure
      → live t (key_of e) s ≡ none
      → ((process T S t u (some e) s).1 ≡ [])
        × Shows T K S live L (key_of e) (u +ℤ hour) e (process T S t u (some e) s).0
  unfolding process
  first_stored t u e s dep nothing = (
    ground (arith, L.get-live t (key_of e) s, nothing, dep),
    λ w le. ground (
      arith,
      L.get-live t (key_of e) s,
      nothing,
      dep,
      L.live-set u w (key_of e) (key_of e) (some (stop (some e))) hour s refl refl,
      eq_refl (key_of e),
      le→ltb_ℤ (u +ℤ hour) w le,
    ),
  )

  -- Over a store that keeps the laws and has nothing live under the key of the first departure,
  -- with timestamps of whole seconds from 1970 to 2038: a vehicle leaves a stop `s` of the route
  -- `r-x` in the direction `y`, and another one, later and within an hour, the stop `y-s`, which
  -- is a different stop, of the route `r` in the direction `x`. The processor sends a headway from
  -- the one departure to the other.
  pub do_stream-shared_key :
      (r x y s : String) (e d : StopEvent) (m n : ℕ) (t u t' u' : ℤ) (σ : S.State)
      → IsOf (r <> "-" <> x) y s e
      → IsOf r x (y <> "-" <> s) d
      → (vehicle_of e == vehicle_of d) ≡ false
      → IsAt T m e
      → IsAt T n d
      → m < n
      → t' ≤ℤ u +ℤ hour
      → live t (key_of e) σ ≡ none
      → (s ≢ y <> "-" <> s)
        × ((do_stream T S ((t, u, message (some e)) ∷ (t', u', message (some d)) ∷ []) σ).1
            ≡ headway_event T e d ∷ [])
  unfolding do_stream run_stream
  do_stream-shared_key r x y s e d m n t u t' u' σ of_e of_d others at_m at_n later soon nothing =
      let (silent, shows) = first_stored t u e σ of_e.0 nothing in
      let (sent, shows') =
        counted T K S live L (key_of e) (u +ℤ hour) t' u' e d m n (process T S t u (some e) σ).0
          of_d.0 (key_of-shared r x y s e d of_e of_d) soon at_m at_n shows
          (ground (arith, others, later)) in
      (longer y s, rw (silent, sent) refl)
