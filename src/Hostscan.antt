-- ===== src/Hostscan.antt =====
-- packages/pacman/base/src/pkg/openconnect/hostscan.
pub mod Marshal
pub mod Scan
pub mod Text
pub mod Client
