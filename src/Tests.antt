-- ===== src/Tests.antt =====
-- Runs of the model at the byte vectors of the repository's tests, and the theorems at such inputs.
mod Floats
mod Frames
mod Records
mod Links
mod Outcomes
mod Lifespans
mod Loads
mod Documents
mod Talks
mod Writes
mod Gateway
mod Serials
mod Simulations
mod Devices
mod Seeds
mod Statuses
mod Selections
mod Clocks
mod Roundabout
