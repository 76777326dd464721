-- ===== src/Syncutil.antt =====
-- packages/pacman/base/src/pkg/syncutil.
pub mod Signal
pub mod Timeout
pub mod WeakMap
