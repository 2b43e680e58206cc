-- ===== src/Tests.antt =====
-- Runs of the model at concrete inputs, and instances of the theorems there.
mod Base
mod Store
mod Stops
mod Dwells
mod Headways
mod Travels
mod Positions
mod Sinks
mod Graphs
mod Events
mod Trips
mod Requests
mod Wire
mod Redis
mod Start
mod Passing
mod Fleet
mod Shares
mod Flows
mod Chain
mod Derived
mod Channels
