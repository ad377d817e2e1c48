-- ===== src/Lib.antt =====
-- smolmux: a broker that shares the serial console of a device between clients. This library models
-- the parts of it that keep state of their own between two system calls, and their helpers. Paths are
-- those of the repository.
--
-- The parts and how they meet. The broker reads bytes from a link (src/links). It appends them to the
-- history buffer (src/ring_buffer.c), from which clients read pages by a cursor, and feeds them to the
-- watchers: the boot tracker (src/boot_stage.c), the expect engine (src/expect.c), the autoresponder
-- (src/autoresponder.c) and the anomaly detector (src/anomaly.c). The watchers compile and run their
-- patterns with src/regex_engine.c. Bytes for the device go through the link's write queue
-- (src/links/link_wq.c); the broker (src/broker.c) decides which client may write them, and pulses the
-- control lines of the link by a state machine on a timer. Its connections (src/client.c) cut what the
-- clients send into messages (src/protocol.c), and queue what the clients are sent. A lost link is
-- opened again, and a client may suspend it. A history request copies chunks of the buffer, and the
-- turns of the event loop encode them. The helpers of src/util and of the monitor print, parse and encode text.
--
-- Which file models which part:
--   Base            the names that all modules share; Base/Lists and Base/Ring hold the lists and the
--                   circular tables over native numbers, Base/CString what a C string is
--   History         sm_rb_* of src/ring_buffer.c: append, evict, destroy; History/Pool the pool of
--                   released blocks; History/Query the queries
--   Link/WriteQueue sm_link_wq_* of src/links/link_wq.c
--   Regex/Risk      check_redos_risk and its helpers in src/regex_engine.c
--   Regex/Engine    sm_regex_compile and sm_regex_exec with the POSIX back end
--   Stream/Matcher  what the watchers use of the regex engine; Stream/Posix fills it from Regex/Engine
--   Stream/Window   window_append of src/boot_stage.c and src/autoresponder.c
--   Stream/Boot     sm_boot_* of src/boot_stage.c
--   Stream/Expect   sm_expect_* of src/expect.c
--   Stream/Autoresponder  sm_autoresponder_* of src/autoresponder.c
--   Stream/Anomaly  the prefilter, the pattern table and the context of src/anomaly.c
--   Text/Base64, Text/Escape, Text/StrBuf, Text/Keys  src/util/base64.c, str.c and keyspec.c
--   Text/Monitor    src/monitor_crlf.h and src/monitor_esc.h
--   Broker/Line     what src/broker.c asks of the link, sm_broker_do_write
--   Broker/Break    break_* and the two sm_broker_schedule_* functions of src/broker.c
--   Broker/Flood    flood_* and sm_broker_start_flood of src/broker.c
--   Broker/Token    ct_str_equal of src/broker.c
--   Broker/Clients  the table of clients in src/broker.c, can_send and remove_client
--   Broker/Control  handle_client_message of src/broker.c with the handlers of hello, takeover,
--                   release, send and send_expect
--   Broker/Listen   handle_listen_expect of src/broker.c
--   Broker/Paging   handle_history_request and process_history_pending of src/broker.c
--   Broker/Reopen   link_*, attempt_reconnect, sm_broker_do_suspend, sm_broker_do_resume and
--                   handle_link_* of src/broker.c, with the turns of the event loop that call them
--   Client/Feed     sm_client_feed of src/client.c
--   Client/Queue    sm_client_send*, sm_client_flush and the merging of output in src/client.c, and
--                   src/util/shared_line.c
--   Protocol        sm_msg_encode, sm_msg_decode, sm_msg_output and the names of the types in
--                   src/protocol.c, and src/util/json_helpers.c; Protocol/Types the types
--   Tests           runs of the theorems at concrete inputs
--
-- Conventions. Bytes and sizes are natural numbers; no sum in the modelled code comes near 2 ^ 64.
-- A C string is the list of its bytes without the terminator, a block of memory the list of its bytes
-- in use with its size beside it. Timestamps are whole ticks, milliseconds in the watchers. Each
-- allocation that may fail is a flag of the call. The kernel's write, regcomp, regexec and the time
-- that a match takes are parameters. So is the device link of the broker: a function that gives the
-- success of a call from the calls before it. A client's pointer is its number; its connection is told
-- to the broker by events, and its requests by their fields. Where lines of JSON matter (Protocol,
-- Client/Queue) the calls of cJSON are a record of operations, and what the code relies on is a record
-- of laws: how a message of serial output is printed, and that its strings are found again. The
-- kernel's timers are not modelled but for the success of a call and the expiry. In Broker/Reopen the
-- link's answers come with the events and say what becomes of the device, and the broker's calls, fences
-- and notices are a log.
--
-- Bounds and fuel. A loop over a table runs on the list of its cells. evict has one round for each chunk
-- and at most one more in which the loop ends, so the number of chunks is enough; flush and write have
-- one round more than there are bytes, since each round writes a byte or ends, and the flush of a
-- client one more for each entry; check_redos_risk has
-- one round more than there are bytes in the pattern, since each round passes a byte, and
-- ends where the code would read behind the pattern; the block of a
-- request doubles 19 times at most, which from one byte passes 256 KiB; a sweep of requests has one
-- round for each request.
--
-- Not modelled: the poll loops, sockets and JSON of the broker and its other requests, the sinks, the
-- MCP programs and the command line programs, which are calls of the system and of cJSON; the scan of
-- the anomaly detector and its store of incidents; the builders of the other messages, which only add
-- fields; the counts of the references to a shared line; the logs, profiles and manifests.
pub mod Base
pub mod Broker
pub mod Protocol
pub mod Client
pub mod History
pub mod Text
pub mod Link
pub mod Regex
pub mod Stream
pub mod Tests
