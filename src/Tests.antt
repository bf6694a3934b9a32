-- ===== src/Tests.antt =====
-- Tests and witnesses.
mod Kernel
mod Http
mod Witnesses
mod Interleaving
mod Balancing
mod Forwarding
mod Pooling
mod Backends
mod Arguments
mod Sockets
mod Running
mod Through
mod Racing
mod Rounds
mod Descriptors
mod Sessions
mod Draining
mod KeepAlive
mod Malformed
mod Waiting
