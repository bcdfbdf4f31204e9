-- ===== src/Tests.antt =====
-- Runs at concrete inputs: each property of the development, applied where its conditions hold.
mod Data
mod StoreRuns
mod Queue
mod Chain
mod Matching
mod Events
mod Engine
mod Signing
mod Sweeps
mod Draining
mod Settling
mod Recording
mod Keys
