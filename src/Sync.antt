-- ===== src/Sync.antt =====
-- The API service's memory, kept together with the database and the nodes (src/bin/api/sync/).
pub mod World
pub mod Operations
pub mod Nodes
pub mod Deletion
pub mod Prolonging
pub mod Restoring
