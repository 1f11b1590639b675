-- ===== src/Json.antt =====
-- The JSON parser of include/radixforge/json_minimal.h and the escaping of src/openai_api.cpp.
pub mod Reading
pub mod Strings
pub mod Value
pub mod Access
pub mod Scalars
pub mod Parse
pub mod Progress
pub mod Literals
pub mod Containers
pub mod Limits
pub mod Escape
pub mod RoundTrip
