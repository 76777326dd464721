-- ===== src/Menuet.antt =====
-- packages/pacman/base/src/pkg/menuet.
pub mod Menu
pub mod Notification
pub mod Status
