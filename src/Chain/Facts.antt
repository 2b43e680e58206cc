-- ===== src/Chain/Facts.antt =====
-- What holds of the events on the way from an agency's feed.
use tpm_go.Prelude.{◌≡◌, ℕ, String, Option, none, some}
use tpm_go.Prelude.Int.{ℤ}
use tpm_go.Events.Timestamp.{TimeOps}
use tpm_go.Events.Attributes
use tpm_go.Events.Attributes.{EventAttributes}
use tpm_go.Events.Stop.{StopEvent}
use tpm_go.Events.Message.{ProtoMessage}
use tpm_go.Processors.Element.{as_stop_event}
use tpm_go.Processors.Elapsed.{IsAt}
use tpm_go.Processors.StopEvents.{previous_attributes}
use tpm_go.Processors.StopEvents.Machine.{Named}

-- The attributes are of a named vehicle of the agency at a named stop.
abbrev pub IsPlaced : String → Option EventAttributes → Type 0
IsPlaced agency a =
    (Attributes.get_agency_id a ≡ agency)
    × Named (Attributes.get_vehicle_id a)
    × Named (Attributes.get_stop_id a)

-- A stop event of a named vehicle of the agency at a named stop, at a whole second of the era.
abbrev pub IsStop : TimeOps → String → StopEvent → Type 0
IsStop T agency e = IsPlaced agency e.attributes × (n : ℕ) × IsAt T n e

-- The pointer is not nil, and its event is one.
abbrev pub IsSentStop : TimeOps → String → Option StopEvent → Type 0
IsSentStop T agency none = ⊥
IsSentStop T agency (some e) = IsStop T agency e

-- If the message is a position, it is at a named stop.
abbrev pub IsSeenSomewhere : ProtoMessage → Type 0
IsSeenSomewhere m =
    (previous : EventAttributes) → previous_attributes m ≡ some previous → Named previous.stop_id

abbrev pub IsStoredStop : TimeOps → String → ProtoMessage → Type 0
IsStoredStop T agency m = (e : StopEvent) → as_stop_event m ≡ some e → IsStop T agency e

-- Everything that is live in the store has the property.
abbrev pub Holds :
    {S : Type 0} → (ℤ → String → S → Option ProtoMessage) → (ProtoMessage → Type 0) → S → Type 0
Holds live P s = (w : ℤ) (k : String) (m : ProtoMessage) → live w k s ≡ some m → P m
