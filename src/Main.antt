-- ===== src/Main.antt =====
-- cpp/main: the simulation runner.
pub mod Random
pub mod Sim
pub mod Config
