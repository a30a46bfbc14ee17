-- ===== src/Instrument.antt =====
-- runtime/instrument: what the interception layer observes of a game's presentation.
-- 64-bit counters, sums and ticks wrap; 32-bit ones wrap at 2 ^ 32.
pub mod Stat
pub mod TextureLog
pub mod Swapchain
pub mod Trace
pub mod Timeline
mod Tests
