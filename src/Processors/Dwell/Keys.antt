-- ===== src/Processors/Dwell/Keys.antt =====
-- The key under which the dwell processor keeps its state: the fields of a `DwellStopKey`, joined
-- by dashes.
use tpm_go.Prelude.{◌≡◌}
use tpm_go.Prelude.Dash.{HasNoDash, dash-injective}
use tpm_go.Processors.Dwell.{DwellStopKey, key_string}

-- The fields of a key, but for the last one, have no dash.
pub record IsPlain (k : DwellStopKey) : Type 0 where
  pub agency : HasNoDash k.agency_id
  pub route : HasNoDash k.route_id
  pub stop : HasNoDash k.stop_id
  pub direction : HasNoDash k.direction_id

-- Two dwell keys with the same text are the same key, where no field but the vehicle has a dash.
pub dwell_key_string-injective :
    (k j : DwellStopKey) → IsPlain k → IsPlain j → key_string k ≡ key_string j → k ≡ j
unfolding key_string
dwell_key_string-injective k j pk pj e =
    let (agency, e₁) = dash-injective k.agency_id j.agency_id _ _ pk.agency pj.agency e in
    let (route, e₂) = dash-injective k.route_id j.route_id _ _ pk.route pj.route e₁ in
    let (stop, e₃) = dash-injective k.stop_id j.stop_id _ _ pk.stop pj.stop e₂ in
    let (direction, vehicle) =
      dash-injective k.direction_id j.direction_id _ _ pk.direction pj.direction e₃ in
    cc (agency, route, stop, direction, vehicle)
