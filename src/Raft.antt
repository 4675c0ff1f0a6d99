-- ===== src/Raft.antt =====
-- One Raft group: raft/RaftNode.
pub mod Message
pub mod Node
pub mod Disk
pub mod Handlers
