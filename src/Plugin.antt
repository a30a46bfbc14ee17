-- ===== src/Plugin.antt =====
-- runtime/plugin: the code inside the game's process.
pub mod Coexistence
