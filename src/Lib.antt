-- ===== src/Lib.antt =====
-- pqproxy: a proxy in front of PostgreSQL that injects the identity of a client's certificate into
-- every bound statement. This is a model of its C sources, in paths from the repository's root.
--
-- The parts, and how they interact. The event loop (src/iouring_loop.c) reads a client's messages.
-- A Parse goes to the statement cache of the connection (src/rewrite_engine.c), with the slot of the
-- parameter that will hold the identity. A Bind is rewritten with the identity and sent on a
-- backend of the pool (src/backend_pool.c); while there is none, messages stay in the connection's
-- request queue and the connection waits in the server's wait ring.
--
-- Pique: the pique library's messages and calls, which are not in this repository. Each call that
--   the code makes is a constructor, and what a context answers is a parameter.
-- StmtCache: pqproxy_stmt_cache_init, put, get and remove.
-- IdentitySlot: pqproxy_resolve_identity_slot.
-- Rewrite: pqproxy_on_parse_ex, pqproxy_on_bind and pqproxy_on_simple_query.
-- FeQueue: feq_push, feq_pop and how drain_fe_queue puts a message back.
-- Outbox: queue_plain_send, submit_send, submit_poll, the completion of a send and tls_drive_write.
-- WaitRing: waiters_push, waiters_remove and how fair_schedule_waiters takes the oldest waiter.
-- Pool: the connections of the backend pool, and pqproxy_backend_checkout, checkin, pool_maintain and
--   async_finish. What the network answers is a parameter that sees all requests before.
-- Pipeline: pqproxy_backend_async_begin, async_send_ptr and async_send_advance, exec_bind and exec_query. Served is
--   the pool as the event loop uses it.
-- Recv: be_filter_append and pqproxy_backend_async_on_recv. The loop over the received bytes has their
--   number as fuel, since each message takes at least five.
-- Groups: parse_groups, and how pqproxy_backend_pool_create lays out a pool. The list is read with the length
--   of its text as fuel, since each round takes a byte.
-- Loop: the event loop, src/iouring_loop.c. A server is the pool, the 256 slots of clients as a function,
--   the wait ring, the free entries of the submission queue and the calls that change metrics. Output has
--   drain_frontend_out; Schedule and Rounds have drain_fe_queue, fair_schedule_waiters, after_backend_release
--   and backend_async_fail; Pipelines the completions of the backends; Frontend process_frontend; Serving
--   alloc_conn, close_conn and accept_one; Dispatch the input and the loop of pqproxy_run. The pool is a
--   record of operations and laws (Backend), which Pipeline/Served fills. backend_async_fail starts other
--   pipelines, whose start may fail again while the submission queue is full: fail_at has the depth of such
--   failures as fuel, with 257 at the top. They need a full queue, which the theorem on rounds excludes.
--   The loop of drain_fe_queue has the length of the queue as fuel, since each round takes a message.
--   The other modules are proofs: Leases says who holds which connection, and Whole is the theorem on it.
-- Metrics: the counters of src/metrics.c and the calls that change them.
-- Auth: the login at a backend, read_msg to backend_authenticate. read_msg recurs on what each read does, and
--   a login on its 64 rounds.
-- Identity: pqproxy_identity_from_cert_subject and pqproxy_identity_from_x509, over what OpenSSL says of
--   the certificate.
-- Scalars: parse_bool, parse_u16, parse_int and parse_size of src/config_yaml.c.
-- Settings: pqproxy_config_t with its defaults, and the rest of src/config_yaml.c. Apply is apply_scalar,
--   its chain of tests as rows, with Setters; Load is the loading of a document, a text and a file. What libyaml
--   says of a document is a parameter.
-- Cli: main of src/main.c up to the call of pqproxy_run.
-- Scram: src/scram_client.c; Exchange has the server's messages; Server is not the program's but
--   the other side as RFC 5802 has it. OpenSSL is a parameter.
-- Base: machine integers, C arrays and C strings as lists, and the reading of a ring.
-- Examples: concrete runs.
--
-- A C string is the list of its bytes up to the terminator. A fixed array is a list of its length,
-- and a counted loop recurs on the rounds that are left. int16_t values are integers with
-- their wrap-around written out.
-- Pointers are never NULL here: the null checks at the head of each function are not modelled.
-- Not modelled: OpenSSL and most of what src/tls_mtls.c and src/ktls.c ask of it, sockets, the clock, how
-- pqproxy_run sets up and tears down, the time that a pipeline takes, and the texts and the endpoint
-- of the metrics.
pub mod Base
pub mod Pique
pub mod StmtCache
pub mod IdentitySlot
pub mod Identity
pub mod Rewrite
pub mod FeQueue
pub mod Outbox
pub mod WaitRing
pub mod Pool
pub mod Pipeline
pub mod Recv
pub mod Scalars
pub mod Settings
pub mod Cli
pub mod Scram
pub mod Auth
pub mod Groups
pub mod Metrics
pub mod Loop
pub mod Examples
