-- ===== src/Events/Message.antt =====
-- A `proto.Message` of the processors: an interface value that holds a pointer to one of the
-- messages of api/v1/events. The pointer may be nil, and so may the interface.
use tpm_go.Prelude.{Option}
use tpm_go.Events.VehiclePosition.{VehiclePositionEvent}
use tpm_go.Events.Stop.{StopEvent}
use tpm_go.Events.Dwell.{DwellTimeEvent}
use tpm_go.Events.TravelTime.{TravelTimeEvent}
use tpm_go.Events.Headway.{HeadwayTimeEvent}

pub data Message : Type 0 where
  vehicle_position : Option VehiclePositionEvent → Message
  stop : Option StopEvent → Message
  dwell_time : Option DwellTimeEvent → Message
  travel_time : Option TravelTimeEvent → Message
  headway_time : Option HeadwayTimeEvent → Message

-- The interface value; `none` is a nil interface.
abbrev pub ProtoMessage : Type 0
ProtoMessage = Option Message
