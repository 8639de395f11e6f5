-- ===== src/Webhooks.antt =====
-- webhooks.py: deliveries of a forge, from their signature to the event that is submitted.
pub mod Values
pub mod Events
pub mod Discussion
pub mod Parsing
pub mod Gitlab
pub mod Deliveries
pub mod Handlers
pub mod Recent
pub mod Deduplication
pub mod Authentic
pub mod Pushes
pub mod Tests
