-- ===== src/Bindings.antt =====
-- cpp/bindings: the environment that the Python side trains on.
pub mod SimEnv
