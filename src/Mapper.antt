-- ===== src/Mapper.antt =====
-- src/kv_mapper.cpp and include/radixforge/kv_mapper.h: the mapping from nodes of the tree to
-- physical sequences of the KV cache.
pub mod State
pub mod Eviction
pub mod Sequence
pub mod Pool
pub mod Delta
pub mod Progress
