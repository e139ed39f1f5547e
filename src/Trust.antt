-- ===== src/Trust.antt =====
-- The federation's entities and their trust chains (src/trust), module by module.
pub mod Types
pub mod Entities
pub mod Chain
pub mod Messages
mod Tests
