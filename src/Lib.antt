-- ===== src/Lib.antt =====
-- xEdge, an industrial edge gateway. Drivers poll field devices and turn what they answer into
-- samples; a pipeline normalises and filters the samples; a store buffers them, in memory and on
-- disk, while a connection is down; connectors publish them to brokers and servers. This library
-- models the parts whose own logic decides whether a sample is read, kept and published as it was.
--
-- How the parts interact. The Modbus driver plans once, when it starts, which registers one request
-- reads (`plan_read_blocks`), encodes each request as a PDU (`encode_read_request`), frames it for
-- its transport (`encode_mbap` on TCP, `encode_rtu_frame` on serial lines), and takes the answer
-- apart with the decoders of the same modules; a connectivity tracker counts the successes and the
-- failures of the polls. A scheduler gives the requests of one bus to its transport one at a time,
-- writes before reads. The bit-level CRC, the planner and the codec are shared by every transport.
-- The pipeline turns the updates of every driver into tags (`normalize`), the alarm engine marks
-- them (`evaluate`), and the deadband filter holds back what did not change (`should_publish`). What
-- is left goes to one ring buffer for each stream, which spills its oldest samples to the cold store
-- when it is full; the dispatcher of each connector drains the buffers, and after an outage replays
-- the cold store. The API lets a user in after the lockout and the role were checked, and writes what
-- was done to the audit log.
--
-- Which file models which part:
--   Prelude.antt       the shared helpers: list and dict operations with Python's behaviour out
--                      of range and on a missing key, results (an exception is the `err` of a
--                      type of errors), integers, a stable sort, and bit operations
--   Connectivity.antt  xedge/core/connectivity.py: ConnectivityTracker with record_success,
--                      record_failure and _transition
--   Modbus/Codec       xedge/drivers/modbus/codec.py: every encoder and decoder, the limits
--   Modbus/Rtu         xedge/drivers/modbus/rtu_codec.py: compute_crc16 and both frame functions
--   Modbus/Datatypes   xedge/drivers/modbus/datatypes.py: the type table, register_count, decode
--                      and encode over both word orders and both byte orders
--   Modbus/Scheduler   xedge/drivers/modbus/scheduler.py: submit, start, stop, and the consumer
--                      task `_run` as the steps take_next, finish and break_off
--   Modbus/Planner     xedge/drivers/modbus/planner.py: tag_span, plan_read_blocks,
--                      _plan_one_function_code and _build_block
--   Sparkplug          xedge/northbound/sparkplug/wire.py and session.py: varints, fields, the
--                      reader of a message, and the counters of a session
--   Store/RingBuffer   xedge/store/ring_buffer.py: RingBuffer and RingBufferManager
--   Store/ColdStore    xedge/store/sqlite_store.py: SqliteColdStore and a round of purge_loop, over
--                      the record Sqlite, which says what SQLite documents of the statements
--   Northbound/Dispatcher  xedge/northbound/dispatcher.py: _replay_cold_store (replay_cold_store)
--                      one iteration of run and stop (Live), over the record Connector
--   Pipeline           xedge/core/pipeline.py: normalize, DeadbandFilter and
--                      build_tag_pipeline_configs, over the record Values
--   Alarms             xedge/core/alarms.py: AlarmEngine and build_alarm_rules, over the record
--                      Floats
--   AuditLog           xedge/observability/audit_log.py: AuditLog, over the record Formats
--   Access             xedge/api/auth.py: LoginAttemptTracker; xedge/api/permissions.py;
--                      xedge/api/rate_limit.py: RateLimitMiddleware
-- A file with the name of a part holds its definitions; its children hold proofs, named for what
-- they prove, and `Examples`, with tests and theorems applied at concrete inputs.
--
-- How the code is represented. A method that changes its object is a function from the old state to
-- the new one, beside its result. `bytes` are lists of numbers; a theorem that needs each to be
-- below 256 says so. Values that Python may hold below zero are of the type ℤ; an argument that the
-- configuration schema keeps at zero or above is a natural number. Reading past the end of a list
-- gives the error that Python raises. The current time is an argument.
--
-- Bounds. Every loop is structural recursion on the list, or on a number that the code itself
-- counts, such as the eight rounds of the CRC; where the code loops until a condition holds, the
-- recursion is on fuel, and a theorem shows how much is enough: for the reader of Sparkplug
-- messages the fuel that the definition gives, for the replay of a stream one more than its file
-- has rows, when the connector takes every batch and no other task touches the store meanwhile.
-- A connector whose backlog grows as fast as it is taken is replayed for ever; the model then
-- runs out of any fuel, and what is shown of the replay holds of each such beginning. Other
-- tasks may append to the store and purge it while a replay awaits the connector; where a
-- theorem asks that they do not, it says so. Facts on operations of 16-bit words come from
-- tables of 65536 entries that the checker evaluates.
--
-- What is not modelled: sockets, serial ports, HTTP and the protocol libraries, which are input and
-- output; the database, SHA-256, JSON and floating-point arithmetic, which are parameters; the
-- texts of messages and logs; and the parts that the manifest lists as not modelled.
pub mod Prelude
pub mod Access
pub mod Alarms
pub mod AuditLog
pub mod Connectivity
pub mod Modbus
pub mod Northbound
pub mod Pipeline
pub mod Sparkplug
pub mod Store
