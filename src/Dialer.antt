-- ===== src/Dialer.antt =====
-- packages/pacman/base/src/pkg/dialer.
pub mod Context
pub mod Lazy
pub mod Chain
pub mod Rewriting
pub mod ByHost
pub mod Oc
pub mod Race
pub mod Registry
