-- ===== src/Api.antt =====
-- The texts of src/openai_api.cpp that are sent in pieces.
pub mod Utf8
pub mod Chunks
pub mod Cut
