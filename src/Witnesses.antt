-- ===== src/Witnesses.antt =====
-- The theorems at concrete inputs.
mod History
mod Schedule
mod Findings
mod WaitLoop
mod Gates
mod Gc
mod Sweeps
mod Tick
mod Pipeline
mod SelfUpdate
mod Watchdog
mod Nightly
mod PickFeature
