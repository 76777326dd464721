-- ===== src/OpenConnect.antt =====
-- packages/pacman/base/src/pkg/openconnect.
pub mod Vpn
pub mod Forms
pub mod Bridge
pub mod Client
