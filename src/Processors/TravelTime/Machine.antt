-- ===== src/Processors/TravelTime/Machine.antt =====
-- What the travel time processor computes for one key.
use tpm_go.Prelude.{◌≡◌, refl, String, Option, none, some, List, [], ◌∷◌, arith, if◌then◌else◌}
use tpm_go.Prelude.Int.{ℤ, pos, leb_ℤ}
use tpm_go.Prelude.Text.{◌==◌, eq_refl}
use tpm_go.Prelude.Merge.{IsMerge}
use tpm_go.Events.Timestamp.{TimeOps, hour}
use tpm_go.Events.Stop.{EventType, arrival, StopEvent}
use tpm_go.Events.TravelTime.{TravelTimeEvent}
use tpm_go.Events.Message.{ProtoMessage, stop}
use tpm_go.StateStore.Interface.{StateStore, TypedLaws}
use tpm_go.Processors.Element.{Element, new_stop_event}
use tpm_go.Processors.Keyed.Shards.{share, others}
use tpm_go.Processors.Keyed.Machine.{
  Change, keeps, stores, Memory, remembered, next, events_of, machine, Remembers, MachineLaws,
  run_stream-IsMerge,
}
use tpm_go.Processors.TravelTime.{
  key_of, stop_of, travel_seconds, travel_time_event, process, do_stream,
}
use tpm_go.Processors.TravelTime.Shared.{process-KeyedLaws}

module _ (T : TimeOps) where
  -- An arrival ends the way from a remembered one, unless it is at the same stop or not later.
  react_type : EventType → Option StopEvent → StopEvent → List TravelTimeEvent × Change
  react_type arrival none e = ([], stores)
  react_type arrival (some a) e =
      if stop_of a == stop_of e
      then ([], keeps)
      else if leb_ℤ (travel_seconds T a e) (pos 0)
      then ([], stores)
      else (travel_time_event T a e ∷ [], stores)
  react_type _ last e = ([], keeps)

  unfoldable pub react : Option StopEvent → StopEvent → List TravelTimeEvent × Change
  unfolding react_type
  react last e = react_type e.stop_event_type last e

  module _ (S : StateStore) (live : ℤ → String → S.State → Option ProtoMessage)
      (L : TypedLaws S live new_stop_event) where
    process-sends :
        (t u : ℤ) (e : StopEvent) (s : S.State) (c : Memory)
        → Remembers react live (process T S) key_of (key_of e) c s
        → (process T S t u (some e) s).1 ≡ (react (remembered t c) e).0
    unfolding process react
    process-sends t u e s none memory = ground (arith, L.get-live t (key_of e) s, memory t)
    process-sends t u e s (some (a, end)) memory =
        ground (arith, L.get-live t (key_of e) s, memory t)

    process-Remembers :
        (t u : ℤ) (e : StopEvent) (s : S.State) (c : Memory)
        → Remembers react live (process T S) key_of (key_of e) c s
        → Remembers react live
            (process T S)
            key_of
            (key_of e)
            (next (react (remembered t c) e).1 u e c)
            (process T S t u (some e) s).0
    unfolding process react
    process-Remembers t u e s none memory w = ground (
      arith,
      L.get-live t (key_of e) s,
      L.live-set u w (key_of e) (key_of e) (some (stop (some e))) hour s refl refl,
      eq_refl (key_of e),
      memory t,
      memory w,
    )
    process-Remembers t u e s (some (a, end)) memory w = ground (
      arith,
      L.get-live t (key_of e) s,
      L.live-set u w (key_of e) (key_of e) (some (stop (some e))) hour s refl refl,
      eq_refl (key_of e),
      memory t,
      memory w,
    )

    process-MachineLaws : MachineLaws react live (process T S) key_of
    process-MachineLaws = record { sends = process-sends; remembers = process-Remembers }

    -- Over any store that keeps the laws and shows under a key what the machine remembers: what
    -- `doStream` sends for any elements is what the machine sends for the stop events of the key,
    -- merged, in some way that keeps the order of both, with what `doStream` sends where only the
    -- other keys' stop events come in.
    pub travels-machine :
        (k : String) (es : List (ℤ × ℤ × Element StopEvent)) (s : S.State) (c : Memory)
        → Remembers react live (process T S) key_of k c s
        → IsMerge
            (machine react c (events_of key_of k es))
            (do_stream T S (share key_of (others (λ j. j == k)) es) s).1
            (do_stream T S es s).1
    unfolding do_stream
    travels-machine k =
        run_stream-IsMerge react live (process T S) key_of (process-KeyedLaws T S live L)
          process-MachineLaws k
