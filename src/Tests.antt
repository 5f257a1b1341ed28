-- ===== src/Tests.antt =====
-- The theorems applied to concrete inputs, and runs of the code's definitions.
mod Values
mod Codec
mod Carriers
mod Spans
mod Setup
mod Session
mod Shortage
mod Libraries
mod Finishing
mod Texts
mod Threads
mod Views
