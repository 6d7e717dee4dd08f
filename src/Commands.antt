-- ===== src/Commands.antt =====
-- The commands of the client (cmd/tuplespacectl).
pub mod Inputs
pub mod Outputs
pub mod Tuples
pub mod Admin
