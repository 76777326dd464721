-- ===== src/App.antt =====
-- packages/pacman/base/src/internal/app.
pub mod Pool
pub mod Load
pub mod Reload
pub mod Closing
pub mod Config
pub mod Rules
pub mod Start
pub mod StatusMenu
