-- ===== src/Core.antt =====
-- cpp/core: the components of the internal clock.
pub mod Slab
pub mod IdIndex
pub mod Order
pub mod Level
pub mod Ladder
pub mod Book
pub mod Ring
