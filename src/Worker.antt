-- ===== src/Worker.antt =====
-- `InferenceWorker` of src/worker.cpp and include/radixforge/server.h: continuous batching over the
-- mapper.
pub mod State
pub mod Prepare
pub mod Batch
pub mod Retire
pub mod Finish
pub mod Step
pub mod Loop
pub mod Quiet
pub mod Invariant
pub mod Serving
pub mod Answers
pub mod Entries
