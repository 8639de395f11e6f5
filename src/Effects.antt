-- ===== src/Effects.antt =====
-- nixbot_effects: the effects that a flake declares.
pub mod Graph
