-- ===== src/Processors/Dwell/Shared.antt =====
-- The loop of `processors/transit/dwell_events/dwell_event_processor.go` in instances that share its keys out.
use tpm_go.Prelude.{◌≡◌, refl, Bool, false, String, Option, some, List, arith}
use tpm_go.Prelude.Int.{ℤ}
use tpm_go.Prelude.Text.{◌==◌, eq_refl}
use tpm_go.Prelude.Merge.{IsMerge}
use tpm_go.Events.Timestamp.{TimeOps, hour}
use tpm_go.Events.Stop.{StopEvent}
use tpm_go.Events.Message.{ProtoMessage, stop}
use tpm_go.StateStore.Interface.{StateStore, TypedLaws}
use tpm_go.Processors.Element.{Element, new_stop_event}
use tpm_go.Processors.Keyed.{SameAt, KeyedLaws}
use tpm_go.Processors.Keyed.Shards.{SameOn, share, others, run_stream-shared}
use tpm_go.Processors.Dwell.{key_of, process, do_stream}

module _ (T : TimeOps) (S : StateStore) (live : ℤ → String → S.State → Option ProtoMessage)
    (L : TypedLaws S live new_stop_event) where
  process-elsewhere :
      (t u : ℤ) (e : StopEvent) (s : S.State) (k : String)
      → (key_of e == k) ≡ false
      → SameAt live k (process T S t u (some e) s).0 s
  unfolding process
  process-elsewhere t u e s k other w = ground (
    arith,
    L.live-set u w (key_of e) k (some (stop (some e))) hour s refl refl,
    L.live-delete w (key_of e) k s,
  )

  process-here_sent :
      (t u : ℤ) (e : StopEvent) (s s' : S.State)
      → SameAt live (key_of e) s s'
      → (process T S t u (some e) s).1 ≡ (process T S t u (some e) s').1
  unfolding process
  process-here_sent t u e s s' same =
      ground (arith, L.get-live t (key_of e) s, L.get-live t (key_of e) s', same t)

  process-here_live :
      (t u : ℤ) (e : StopEvent) (s s' : S.State)
      → SameAt live (key_of e) s s'
      → SameAt live (key_of e) (process T S t u (some e) s).0 (process T S t u (some e) s').0
  unfolding process
  process-here_live t u e s s' same w = ground (
    arith,
    L.get-live t (key_of e) s,
    L.get-live t (key_of e) s',
    L.live-set u w (key_of e) (key_of e) (some (stop (some e))) hour s refl refl,
    L.live-set u w (key_of e) (key_of e) (some (stop (some e))) hour s' refl refl,
    L.live-delete w (key_of e) (key_of e) s,
    L.live-delete w (key_of e) (key_of e) s',
    eq_refl (key_of e),
    same t,
    same w,
  )

  pub process-KeyedLaws : KeyedLaws live (process T S) key_of
  process-KeyedLaws = record {
    skip = λ t u s. unfold process in refl;
    elsewhere = process-elsewhere;
    here =
        λ t u e s s' same. (process-here_sent t u e s s' same, process-here_live t u e s s' same);
  }

  -- Over any store that keeps the laws: what two instances of the dwell processor send, of which
  -- one has the stop events of some keys and the other one those of the rest, each over a store of
  -- its own that shows the same under its keys, is merged, in some way that keeps the order of
  -- each, what one instance sends for everything.
  pub dwells-IsMerge :
      (mine : String → Bool) (es : List (ℤ × ℤ × Element StopEvent)) (s s1 s2 : S.State)
      → SameOn live mine s s1
      → SameOn live (others mine) s s2
      → IsMerge
          (do_stream T S (share key_of mine es) s1).1
          (do_stream T S (share key_of (others mine) es) s2).1
          (do_stream T S es s).1
  unfolding do_stream
  dwells-IsMerge = run_stream-shared (process T S) live key_of process-KeyedLaws
