-- ===== src/Lib.antt =====
-- PACman (packages/pacman/base/src): a local proxy that sends each connection through the proxy
-- that its rules choose.
--
-- The program reads a configuration of proxies and rules (internal/app), keeps for each proxy a
-- dialer that connects on first use (pkg/dialer/lazy.go), and puts the rules into a table of hosts,
-- zones and networks (pkg/trie). A listener hands each connection to a SOCKS, SSH or HTTP server
-- (pkg/netutil), which dials through the rules (pkg/dialer/by_host.go).
--
-- Files and what they model:
--   Common       helpers, and the parts of Go's strings, net, maps and slices that the code calls
--   Trie         pkg/trie: Net (package net), Cidr, Zone, Host, and Table for trie.go
--   Dialer       pkg/dialer: Context (the interface and errors), Lazy, Chain, Rewriting, and ByHost
--                for by_host.go and ruleset.go; Oc for oc/oc.go, with Csd (ProcessCSD) and Connect
--                (NewDialer, WithConn); Race for common.go, Registry for dailer.go and ssh.go
--   Throttle     pkg/throttle/counter.go
--   App          internal/app: Pool for pool.go, Load for LoadConfig of app.go, Config for
--                config.go, Start for the start and the reload of app.go, StatusMenu for what the
--                menu and the notifications show, with pkg/iterutil/maps.go
--   Env          pkg/env/env.go
--   Menuet       pkg/menuet: Menu for the items of a menu and Status for those of the status bar,
--                both of menu.go; Notification for notification.go
--   Netutil      pkg/netutil: listener.go, encoding.go, the tests of packet.go; and the handlers of
--                internal/app/proxy.go; Join for io.go, Resolver for resolver.go, Hpkp for hpkp.go,
--                and Handles, which the handlers of the SSH and of the HTTP proxy share
--   Sshproxy     pkg/sshproxy/server.go, with HostKey for the host key
--   Syncutil     pkg/syncutil: Signal for signal.go, Timeout for timeout.go, WeakMap for weakmap.go
--   Stackutil    pkg/stackutil/dialer.go, with Endpoint for endpoint.go and Tun for fdbased.go
--   Notify       pkg/notify/notify.go
--   OpenConnect  pkg/openconnect: Vpn for vpninfo.go, Forms for form.go and processor.go, Bridge
--                for bridge.go, Client for client.go, with Tun for TunClient
--   Hostscan     pkg/openconnect/hostscan: Marshal for internal/marshaler, Scan for the manifest
--                and the scanner, Text for the text of report.go, Client for client.go
--   Httpproxy    pkg/httpproxy: Pac for pac.go, Server for server.go
--   Tests        runs on small inputs, and an example of each theorem
-- The definitions stand in the file of the component, in the order of the source, with the names of
-- the source; its child modules hold the specifications and the proofs.
--
-- How the code is modelled. Numbers are natural numbers; a 64-bit duration keeps its wrap-around.
-- A string is the list of its bytes, and letters and spaces are those of ASCII. A Go map is an
-- association list with one entry for each key. The slices of pkg/trie/cidr.go keep the array that
-- `range` reads apart from the slice, with the runtime's choice of capacities as a parameter. The
-- lazy dialer and the signal are state machines: a step is a section of code under the lock, taken
-- whole, and the order of the steps is free. A dialer of pkg/dialer is a function on a world,
-- which every call may change. A notification channel and an OpenConnect connection are state
-- machines too, whose events come in any order: what a call does with a channel it has taken out
-- of the map is an event of its own, and so are the errors that the goroutine of Run receives and
-- the Free that a cancelled context starts. The C library of OpenConnect is a record of functions
-- on its world: a call returns its C int and the errors that its callbacks have offered meanwhile.
-- The copy between two connections is a state machine too, in which a read, a write and what a
-- peer sends are events in any order. A handler of the SSH or the HTTP proxy is a function from
-- what it is answered to the actions that it does, and its deferred calls come where it returns.
-- Loops are structural recursion, also the one of CIDR.Insert, which makes as many rounds as the
-- slice had entries at its start. Only StoreRandom runs on fuel, one draw for each entry of the map
-- and one more; where the keys do not repeat, the first draw is free, and every menu is drawn.
--
-- Parameters: net.ParseCIDR, net.ParseIP and IPNet.String, package net's resolver, the query of a
-- URL, strconv.ParseFloat and FormatFloat, json.Marshal of a text, UnmarshalText of a field's
-- type, gvisor's dialing, the dialers below those modelled, the OpenConnect library, socketpair,
-- and for its dialer the notifications, alerts and browser of the desktop and the user-space
-- stack. An alert with one input answers with one text. Of gvisor also the version of a packet's
-- header, and of a stream what its reads give. Of the SSH library and of net/http the outcome of
-- each call; what package xml decodes from a body; json, yaml and the URL texts of the
-- configuration; RSA keys and their PEM texts; the keys of rand.Text; and what the garbage
-- collector keeps alive.
--
-- Not modelled: the native part of the menus and of the notifications with
-- alerts and web views, the command line, and the socket launchers, which are mostly bindings of
-- libraries and system calls; the accept loops; what only prints packets; vendored code. Of
-- OpenConnect, the cancel of a connect under way, and what GetIPInfo copies.
pub mod Common
pub mod Trie
pub mod Dialer
pub mod App
pub mod Env
pub mod Hostscan
pub mod Httpproxy
pub mod Menuet
pub mod Netutil
pub mod Notify
pub mod OpenConnect
pub mod Sshproxy
pub mod Stackutil
pub mod Syncutil
pub mod Throttle
pub mod Tests
