-- ===== src/Core/Book/Uncrossed.antt =====
-- The best bid stays below the best ask.
pub mod Clear
pub mod Calm
pub mod Life
