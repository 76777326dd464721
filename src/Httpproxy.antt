-- ===== src/Httpproxy.antt =====
-- packages/pacman/base/src/pkg/httpproxy.
pub mod Pac
pub mod Server
