-- ===== src/Tests.antt =====
-- Runs of the model on small inputs, and each theorem that has hypotheses at one that meets them.
mod Trie
mod Lazy
mod Throttle
mod Dialers
mod App
mod Env
mod Syncutil
mod Stackutil
mod Netutil
mod Notify
mod OpenConnect
mod Oc
mod Hostscan
mod Packets
mod Pac
mod Menu
mod Join
mod Proxies
mod Files
mod Race
