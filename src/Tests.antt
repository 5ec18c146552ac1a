-- ===== src/Tests.antt =====
-- The theorems at concrete inputs.
mod Samples
mod Search
mod Updates
mod Trace
mod Imports
mod Scans
mod Answers
mod Languages
mod Watching
mod Writing
mod Owning
