-- ===== src/Core.antt =====
pub mod Interface
pub mod Links
pub mod Hook
pub mod Slices
pub mod Selector
