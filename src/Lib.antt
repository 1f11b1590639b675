-- ===== src/Lib.antt =====
-- RadixForge: an inference server that shares KV-cache prefixes across requests. This library models
-- the prefix cache, which decides what is shared, the worker that serves requests from it in batches,
-- the reading and writing of JSON text, and the handler of completion requests.
--
-- The program's parts: the HTTP server parses requests (openai_api, json_minimal) and queues them.
-- The inference worker tokenizes a prompt and calls `KVMapper::prepare_sequence`, decodes the
-- remaining delta in batches, and at the end extends, marks ready and releases the sequence.
-- `KVMapper` maps logical prompts to sequence ids of llama.cpp's KV cache: it owns the pool of free
-- ids, the count of cells behind each id, and a `RadixTree` whose nodes stand for token prefixes
-- and say which sequences hold them. It evicts idle prefixes when the ids or the cells run out.
--
-- Tree models src/radix_tree.cpp and include/radixforge/radix_tree.h:
--   Tree/Node       `RadixNode` and `RadixTree`; a pointer is the address of a node, 0 the null
--                   pointer and 1 the root; the objects are a forest in which each entry holds
--                   its own children
--   Tree/Prefix     `match_len`, `find_prefix_locked` with `split_node`, `insert`
--   Tree/Sequences  `register_seq_id`, `mark_seq_id_ready`, `release_seq_id`, `extend_seq_id`,
--                   `find_covering_seq_id`
--   Tree/Evict      `release`, `prune_empty_leaves_locked`, `find_eviction_candidates`, `evict`
--   Tree/Inspect    `inspect_prefix`
-- and Tree/Invariant, Path, Longest, Owners, Candidates and Total prove their laws.
-- Mapper models src/kv_mapper.cpp and include/radixforge/kv_mapper.h, and the fields of
-- include/radixforge/config.h that they read:
--   Mapper/State     the fields, the counters and the constructor
--   Mapper/Eviction  `evict_one_locked`, `evict_kv_pressure_locked`, `gc_if_needed`
--   Mapper/Sequence  `allocate_seq_id_locked`, `prepare_sequence`, `release_sequence` and the others
-- and Mapper/Pool, Delta and Progress prove their laws. A history (Mapper/Pool/Histories) is any
-- list of calls of the mapper's public operations with any arguments.
--
-- Worker models src/worker.cpp and the structs of include/radixforge/server.h:
--   Worker/State    the data, `is_cancelled`, `enqueue`, `defer_to_front`
--   Worker/Prepare  `prepare_all`
--   Worker/Batch    the batch that `fused_step` puts together
--   Worker/Retire   `retire`, cancellation, `fail_active`, `fail_prefill`
--   Worker/Finish   what `fused_step` does with the logits
--   Worker/Step     `fused_step`
--   Worker/Loop     `run`, round by round; a history is any list of arrivals and rounds
-- and Worker/Quiet, Invariant, Serving, Answers and Entries prove their laws. The worker holds the
-- mapper and changes it by the operations of Mapper alone.
--
-- Json models include/radixforge/json_minimal.h and `json_escape` of src/openai_api.cpp:
--   Json/Reading, Strings, Value, Scalars and Parse hold the parser; a string is its bytes, and the
--                   position in the source is what is left of it
--   Json/Access     the accessors of `JsonValue`
--   Json/Escape     `json_escape`
-- and Json/RoundTrip, Progress, Literals, Containers and Limits prove their laws. Api/Utf8 models
-- `complete_utf8_prefix_length` of src/openai_api.cpp, whose law is proved in Api/Chunks;
-- Api/Cut cuts a text anywhere, as tokens do.
--
-- Server models the completion handler of src/http_server.cpp and `parse_request_body` of
-- src/openai_api.cpp:
--   Server/Request  `parse_request_body` and what becomes of a body; its Members and Reads say what
--                   the request must hold for the members of the body
--   Server/Stream   `StreamState`, the callbacks of a streamed request and the content provider's loop
--   Server/Collect  `NonStreamState`, its callbacks and the response
-- and Server/Text and Server/Request/Validation prove their laws.
--
-- An operation is a function from the state to the new state and its result. An operation of the
-- mapper or the tree is one step, because only the worker's thread calls those that change them; other
-- threads only read counters and dump the tree. (`prepare_sequence` holds the mapper's mutex for a part
-- of its work alone, so the mutex by itself would not make it one step.) `prepare_sequence` throws
-- only where no sequence id can be had, which is `none`, and its handler is part of it. The parser's
-- exceptions are values, one for each message.
--
-- The worker's thread is the only one that runs its loop; other threads put requests at the end of
-- the queue, which a round reads at its start alone and gives requests back to at the front, so that
-- an arrival during a round is one before the next. What is sent to a peer is an event.
--
-- Fuel: the tree's operations recurse over the forest. The `while (true)` of `evict_one_locked`
-- and the loop of `evict_kv_pressure_locked` run on fuel, one round and the number of owned
-- sequences. The parser runs on twice the length of its input and one more. The results below show
-- that this is enough.
--
-- Bounds: `uint64_t` counters and ticks wrap around at 2 ^ 64; `int` and `size_t` values that
-- count tokens, cells or ids are natural numbers, as are ids and tokens. Addresses are never reused.
--
-- Parameters: the high watermark, a floating-point product, is a function of the context size.
-- The llama.cpp KV cache behind `KvOps` appears by the calls that are made of it. `std::stod` is a
-- function from a literal to the exception that it, or the test of its result, throws. What
-- answers the worker is the record `Bridge` of Worker/State: the status of each `llama_decode`, each
-- sampled token, the tokenizer and the template as functions of the text, and for each poll whether
-- the peer of a request has gone. Any functions will do, and none of them throws. `Sink` of
-- Server/Stream is what cpp-httplib's `DataSink` answers to each call, and a `double` is what the tests
-- of the code ask of it, by a function from the literal.
--
-- Not modelled: what other threads read while a round runs, such as the `is_idle` that src/main.cpp
-- polls; the JSON dump of the tree, logging and locks; clocks, timings and `PerfMetrics`; the
-- pages of the server beside the completions, its transport, and its threads; the text around the
-- content of a message; the command line; llama_bridge, which calls llama.cpp; the research tools.
pub mod Common
pub mod Tree
pub mod Mapper
pub mod Json
pub mod Api
pub mod Worker
pub mod Server
mod Tests
