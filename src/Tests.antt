-- ===== src/Tests.antt =====
-- Runs on concrete inputs.
mod Resp
mod Raft
mod Store
mod Tombs
mod Cluster
mod Topology
mod Commands
mod Server
mod ThreadPool
mod Sockets
mod Client
mod Handler
mod Snapshot
