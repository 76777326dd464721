-- ===== src/Trie/Host.antt =====
-- pkg/trie/host.go: exact host names.
use flakes.Common.{Option, Bytes, Map, get, put}
use flakes.Trie.Zone.{canonocalize_host}

module _ {ℓ} {V : Type ℓ} where
  -- `Host.Insert`
  unfoldable pub insert : Map V → Bytes → V → Map V
  insert m host value = put (canonocalize_host host) value m

  -- `Host.Match`
  unfoldable pub find : Map V → Bytes → Option V
  find m host = get (canonocalize_host host) m
