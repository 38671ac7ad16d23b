-- ===== src/Lib.antt =====
-- Verification library of the Tributo Redis Streams provider (the package tributo_broker_redis).
--
-- The provider reads tasks from two Redis streams, one for each operation type, checks and maps each
-- delivery to a driver input, submits one Ray job for it, and publishes events about it to the stream of
-- its operation. A watcher looks at each submitted job until a terminal event is published, and stops it
-- on a cancel key or at its deadline.
--
-- Files and the code they model (paths from the repository's root):
--   Config         src/tributo_broker_redis/config.py: operation types, profiles, channels and their keys;
--                  Channels, Modules and Execution are the validators of the channels and of the
--                  execution record, Root is RedisBrokerConfig with normalize_config, Names the default
--                  name of a consumer
--   Connection     src/tributo_broker_redis/config.py: RedisConnectionConfig, RedisTransportConfig
--   Client         src/tributo_broker_redis/redis_client.py: create_redis_client and the secrets
--   Protocol       src/tributo_broker_redis/protocol.py: GenericRequest, DriverInput; Credentials is the
--                  search for plaintext credentials, Parse is parse_request, Contract the validators of
--                  DriverInput
--   Operations     src/tributo_broker_redis/operations.py: prepare_operation, in Operations.Prepare
--   Transport      src/tributo_broker_redis/driver_transport.py: driver_transport, read_driver_input
--   Reporter       src/tributo_broker_redis/reporter.py: redact, RedisEventReporter
--   Consumer       src/tributo_broker_redis/consumer.py: RedisTaskConsumer
--   Cancellation   src/tributo_broker_redis/cancellation.py: ActiveSubmissionMap,
--                  terminal_event_published, CancelWatcher; Thread is the watcher's thread,
--                  Causes the machine that it is compared with
--   Runtime        src/tributo_broker_redis/runtime.py: RedisBrokerRuntime; Startup is its constructor,
--                  Create is create_runtime, Loop the loop with start and close
--   Plugin         src/tributo_broker_redis/plugin.py: RedisBrokerPlugin
--   Cli            src/tributo_broker_redis/cli.py: the commands validate and consume
--   Execution      src/tributo_broker_redis/execution_driver.py: the process inside the Ray job; Input is
--                  _load_driver_input, Workload the two workloads and main
-- Base, Json and Patterns hold what these share: dictionaries as association lists in insertion order,
-- sets of strings, JSON values, the few regular expressions. Exec is Python's statements on a state, with
-- exceptions: what was done before a raise stays done; its children are proof rules for such actions.
-- Optional is chains of tests that give up at the first that fails. State is the state of one process;
-- Samples holds concrete values and the tests.
--
-- Redis, Ray, the clock, UUIDs and JSON text are the record Services, an argument of every definition that
-- calls them. Every call is noted in a trace with whether it returned or raised, and each answer is a
-- function of the trace before it, so that it may be any answer at all at any time. A theorem for
-- all Services holds for every behaviour of the outside. Other code that is not in the repository is a
-- parameter too: Python's text functions (TextTools), urlsplit and parse_qsl (UrlTools), pathlib and the
-- package packaging (ModuleTools, Files, Paths), the environment (Environment), the contracts of the package
-- tributo (Contracts), its workloads (Work), what pydantic reads of a driver input (InputTools) and of a
-- configuration (ConfigTools), and what argparse makes of the arguments.
-- The request parser and the operation preparer are arguments of the runtime, as they are in the source;
-- Runtime.Default puts parse_request and prepare_operation in their place.
--
-- Each method is one function, and a part of a long method is a function for its stage. Calls of the log
-- and of print are left out. A lock makes the methods of the active map single steps. Numbers are natural:
-- times are in milliseconds, CPU shares in thousandths; Python's integers have no bound. Loops run over the
-- list they iterate; the two attempts of _publish_nonterminal are counted down from 2; run_forever and the
-- watcher's thread are run for a number of rounds, which is their only fuel: each round is complete, and
-- the loop ends before only when it is closed. The process as a whole is Runtime.System: whole methods of
-- the loop and of the watcher and calls of close, in any order; Runtime.Effects has the single effects of
-- these methods, in any order.
--
-- Not modelled: how long the watcher waits between two passes, the client behind the listing of Ray's jobs,
-- the properties that only hand out an attribute, and a signal within a round of the command line's loop
-- (Runtime.System has close between any two steps).
pub mod Base
pub mod Json
pub mod Patterns
pub mod Exec
pub mod Optional
pub mod Config
pub mod Connection
pub mod Client
pub mod Protocol
pub mod Services
pub mod State
pub mod Reporter
pub mod Cancellation
pub mod Consumer
pub mod Transport
pub mod Operations
pub mod Runtime
pub mod Execution
pub mod Plugin
pub mod Cli
mod Samples
