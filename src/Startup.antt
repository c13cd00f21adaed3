-- ===== src/Startup.antt =====
-- src/main.cpp
pub mod Options
pub mod Config
pub mod Seed
pub mod Main
pub mod Phases
pub mod Laws
