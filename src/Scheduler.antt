-- ===== src/Scheduler.antt =====
-- nixbot/nixbot/build_scheduler.py: dependency-aware scheduling of the attributes of one build.
pub mod Types
pub mod Cache
pub mod Closures
pub mod Dependents
pub mod State
pub mod Dispatch
pub mod Ingest
pub mod Loop
pub mod Search
mod Frames
pub mod Cases
mod Accounting
mod Induction
mod Settle
pub mod Order
mod Once
mod Visits
mod Guards
mod Shrinks
mod Safety
mod Rounds
mod Emission
mod Samples
mod Outcomes
mod Duplicates
mod Tests
