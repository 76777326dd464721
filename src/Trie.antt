-- ===== src/Trie.antt =====
-- packages/pacman/base/src/pkg/trie.
pub mod Net
pub mod Cidr
pub mod Host
pub mod Table
pub mod Zone
