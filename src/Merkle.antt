-- ===== src/Merkle.antt =====
-- go-key-service/internal/merkle: the append-only Merkle tree over agent actions.
pub mod Hash
pub mod Shape
pub mod TreeHash
pub mod Inclusion
pub mod Climb
pub mod Consistency
pub mod Tree
pub mod Verifier
