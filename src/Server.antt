-- ===== src/Server.antt =====
-- The completion handler of src/http_server.cpp and `parse_request_body` of src/openai_api.cpp.
pub mod Stream
pub mod Collect
pub mod Text
pub mod Request
