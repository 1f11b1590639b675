-- ===== src/Tree.antt =====
-- src/radix_tree.cpp and include/radixforge/radix_tree.h: the radix tree of token prefixes.
pub mod Node
pub mod Total
pub mod Invariant
pub mod Prefix
pub mod Sequences
pub mod Evict
pub mod Inspect
pub mod Path
pub mod Owners
pub mod Longest
pub mod Candidates
