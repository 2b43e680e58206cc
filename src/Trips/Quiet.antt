-- ===== src/Trips/Quiet.antt =====
-- Positions that make no stop event: the vehicle is on its way to one stop, or stands at it.
use tpm_go.Prelude.{
  some, ◌≡◌, refl, sym, ◌∙◌, Bool, true, String, Option, List, [], ◌∷◌, ◌++◌, arith, ℕ,
}
use mathlib.Core.List.{append_assoc}
use tpm_go.Prelude.Int.{ℤ, ◌+ℤ◌}
use tpm_go.Prelude.Text.{eq_refl}
use tpm_go.Events.Timestamp.{hour}
use tpm_go.Events.Attributes.{StopStatus, EventAttributes}
use tpm_go.Events.VehiclePosition.{VehiclePositionEvent}
use tpm_go.Events.Message.{ProtoMessage}
use tpm_go.StateStore.Interface.{StateStore, TypedLaws}
use tpm_go.Processors.StopEvents.{
  switch_status, transitions, new_message, receive, process, do_stream,
}
use tpm_go.Processors.StopEvents.Machine.{Named}
use tpm_go.Processors.StopEvents.Journey.{
  Positions, position, elements, last_position, Shows, Shows-process, sent-Shows,
}
use tpm_go.Trips.{is_moving, is_stopped, last_end, IsQuiet}

-- A change between two positions of the kind at one stop sends nothing.
abbrev pub IsCalm : (StopStatus → Bool) → Type 0
IsCalm kind =
    (p a : EventAttributes) (event : VehiclePositionEvent)
    → kind p.stop_status ≡ true
    → kind a.stop_status ≡ true
    → p.stop_id ≡ a.stop_id
    → transitions p a event ≡ []

pub is_moving-IsCalm : IsCalm is_moving
unfolding transitions switch_status
is_moving-IsCalm p a event hp ha same = ground (arith, eq_refl a.stop_id, same)

pub is_stopped-IsCalm : IsCalm is_stopped
unfolding transitions switch_status
is_stopped-IsCalm p a event hp ha same = ground (arith, eq_refl a.stop_id, same)

module _ (S : StateStore) (unmarshal : List ℕ → Option VehiclePositionEvent) where
  -- The run over some positions, and then over more.
  pub do_stream-append :
      (ps qs : Positions) (s : S.State)
      → do_stream S unmarshal (elements (ps ++ qs)) s ≡ (
          let (s', sent) = do_stream S unmarshal (elements ps) s in
          let (s'', later) = do_stream S unmarshal (elements qs) s' in (s'', sent ++ later))
  unfolding do_stream receive
  do_stream-append [] qs s = refl
  do_stream-append ((t, u, attrs, lat, long) ∷ ps) qs s =
      let s' : S.State = (process S t u (some (position attrs lat long)) s).0 in
      simp (do_stream-append ps qs s', append_assoc)

module _ (S : StateStore) (live : ℤ → String → S.State → Option ProtoMessage)
    (L : TypedLaws S live new_message) (unmarshal : List ℕ → Option VehiclePositionEvent)
    (v : String) (named : Named v) (kind : StopStatus → Bool) (is_calm : IsCalm kind) where
  pub quiet :
      (stop : String) (end : ℤ) (previous : EventAttributes) (ps : Positions) (s : S.State)
      → previous.stop_id ≡ stop
      → kind previous.stop_status ≡ true
      → Shows S live L unmarshal v named end previous s
      → IsQuiet kind v stop end ps
      → ((do_stream S unmarshal (elements ps) s).1 ≡ [])
        × Shows S live L unmarshal v named
            (last_end end ps)
            (last_position previous ps)
            (do_stream S unmarshal (elements ps) s).0
        × (kind (last_position previous ps).stop_status ≡ true)
        × ((last_position previous ps).stop_id ≡ stop)
  unfolding do_stream receive
  quiet stop end previous [] s at steady shows q = (refl, shows, steady, at)
  quiet stop end previous ((t, u, attrs, lat, long) ∷ ps) s at steady shows
        (here, there, same, le, q) =
      let event : VehiclePositionEvent = position attrs lat long in
      let s' : S.State = (process S t u (some event) s).0 in
      let shows' =
        Shows-process S live L unmarshal v named t u end previous attrs lat long s here le shows in
      let sent =
        sent-Shows S live L unmarshal v named t u end previous attrs lat long s here le shows in
      let nothing = is_calm previous attrs event steady same (at ∙ sym there) in
      let (none_later, showing, steady', at') =
        quiet stop (u +ℤ hour) attrs ps s' there same shows' q in
      (rw (sent, nothing) none_later, showing, steady', at')
