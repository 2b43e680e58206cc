-- ===== src/Pipelines/Run/Order.antt =====
-- A stop event pipeline with several sources, whose items Merge may put into any order.
use tpm_go.Prelude.{
  ◌≡◌, refl, Bool, String, Option, some, List, [], ◌∷◌, ◌++◌, All, map, map-All, ◌∙◌, ap, sym,
  subst,
}
use tpm_go.Prelude.Int.{ℤ}
use mathlib.Core.List.{map-append}
use tpm_go.Prelude.Merge.{IsMerged, image-merged}
use tpm_go.Events.Stop.{StopEvent}
use tpm_go.Events.Message.{ProtoMessage, stop}
use tpm_go.StateStore.Interface.{StateStore, TypedLaws}
use tpm_go.Processors.Keyed.Shards.{share, share-cons}
use tpm_go.Processors.StopEvents.{new_message, receive, do_stream}
use tpm_go.Processors.StopEvents.Shared.{Elements, vehicle, decoded, as_element}
use tpm_go.Processors.StopEvents.About.{about, about-do_stream}
use tpm_go.Pipelines.{Makers, stop_event_processor, Pipeline}
use tpm_go.Sinks.Turns.{transmit}
use tpm_go.Pipelines.Items.{Item, event, as_position, seen_as}
use tpm_go.Pipelines.Flows.{Libraries, Items, through}
use tpm_go.Pipelines.Run.{Streams, StreamsLaws, run}
use tpm_go.Pipelines.Run.Delivery.{run-merged}

module _ (X : Libraries) (S : StateStore) (mine : String → Bool) where
  -- The positions of these vehicles among the items.
  abbrev pub positions_about : Items X S → Elements
  positions_about xs = share vehicle mine (decoded X.unmarshal_position (seen_as as_position xs))

  positions_about-cons :
      (x : ℤ × ℤ × Item X.gtfs) (xs : Items X S)
      → positions_about (x ∷ xs) ≡ positions_about (x ∷ []) ++ positions_about xs
  unfolding decoded seen_as
  positions_about-cons (t, u, x) xs =
      share-cons vehicle mine (t, u, as_element (receive X.unmarshal_position (as_position x)))
        (decoded X.unmarshal_position (seen_as as_position xs))

  positions_about-merged :
      {C : Type 0} (output : C → Items X S) (before : List C) (source : C) (after : List C)
      (merged : Items X S)
      → IsMerged (map output (before ++ source ∷ after)) merged
      → All (λ c. positions_about (output c) ≡ []) before
      → All (λ c. positions_about (output c) ≡ []) after
      → positions_about merged ≡ positions_about (output source)
  positions_about-merged output before source after merged m h k =
      image-merged positions_about (unfold share decoded seen_as in refl) positions_about-cons
        (map output before) (map output after)
        (subst (λ xss. IsMerged xss merged) (map-append output before (source ∷ after)) m)
        (map-All output (λ xs. positions_about xs ≡ []) before h)
        (map-All output (λ xs. positions_about xs ≡ []) after k)

module _ (M : Makers) (X : Libraries) (S : StateStore)
    (live : ℤ → String → S.State → Option ProtoMessage) (L : TypedLaws S live new_message)
    (F : Streams (ℤ × ℤ × Item X.gtfs) (Item X.gtfs)) (K : StreamsLaws F)
    (output : M.Source → Items X S) (mine : String → Bool) where
  -- A stop event pipeline whose flows are what go-streams documents: if the positions of some of the
  -- vehicles all come from one of its sources, then whatever the order in which the sources are
  -- merged, all sinks get the same stop events before they are closed, and about these vehicles the ones that the
  -- processor sends for the items of that source alone.
  pub run-one_source :
      (p : Pipeline M) (store : M.Store) (before : List M.Source) (source : M.Source)
      (after : List M.Source) (s : S.State)
      → p.processor ≡ some (stop_event_processor store)
      → p.sources ≡ before ++ source ∷ after
      → All (λ c. positions_about X S mine (output c) ≡ []) before
      → All (λ c. positions_about X S mine (output c) ≡ []) after
      → (sent : List (Option StopEvent)) × (s' : S.State) × (run M X S F output p s
          ≡ some (s', map (λ sink. (sink, transmit (map (λ e. event (stop e)) sent))) p.sinks))
        × (about mine sent
            ≡ about mine
                (do_stream S X.unmarshal_position (seen_as as_position (output source)) s).1)
  unfolding through
  run-one_source p store before source after s made split quiet_before quiet_after =
      let merged = F.merge (map output p.sources) in
      let merges : IsMerged (map output (before ++ source ∷ after)) merged =
        subst (λ sources. IsMerged (map output sources) merged) split
          (K.merges (map output p.sources)) in
      let same : positions_about X S mine merged ≡ positions_about X S mine (output source) =
        positions_about-merged X S mine output before source after merged merges quiet_before
          quiet_after in
      let whole =
        about-do_stream S live L mine X.unmarshal_position (seen_as as_position merged) s s
          (λ k h w. refl) in
      let alone =
        about-do_stream S live L mine X.unmarshal_position (seen_as as_position (output source)) s s
          (λ k h w. refl) in
      (
        (do_stream S X.unmarshal_position (seen_as as_position merged) s).1,
        (do_stream S X.unmarshal_position (seen_as as_position merged) s).0,
        run-merged M X S F K output p (stop_event_processor store) s made,
        whole ∙ ap (λ es. about mine (do_stream S X.unmarshal_position es s).1) same ∙ sym alone,
      )
