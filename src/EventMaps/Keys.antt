-- ===== src/EventMaps/Keys.antt =====
-- The keys of the maps of api/v1/events/events.go.
use tpm_go.Prelude.{◌≡◌, refl, ◌++◌}
use tpm_go.Events.Timestamp.{TimeOps}
use tpm_go.Events.Message.{Message, vehicle_position, stop, dwell_time, travel_time, headway_time}
use tpm_go.EventMaps.{get_event_attributes_map, get_values, get_event_map}

-- The map of an event has all entries of its attributes and all of its values, and no others.
get_event_map-append :
    (T : TimeOps) (e : Message) → get_event_map T e ≡ get_event_attributes_map T e ++ get_values T e
unfolding get_event_map
get_event_map-append T (vehicle_position e) = refl
get_event_map-append T (stop e) = refl
get_event_map-append T (dwell_time e) = refl
get_event_map-append T (headway_time e) = refl
get_event_map-append T (travel_time e) = refl
