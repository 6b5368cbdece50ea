-- ===== src/Lib.antt =====
-- TagPulse: RFID tag reads from edge readers over MQTT to a multi-tenant backend.
--
-- The development models the version-2 presence pipeline from end to end, the decoding of EPC memory,
-- the event bus with the evaluation of rules and the legs of assets that it feeds, the outbox of a
-- gateway, the usage meter, and the stores and limits that guard the administrative operations.
--
-- The pipeline. An edge gateway (clients/pi/tagpulse_edge/wm_v2_producer.py, Edge/Producer) compares
-- each reader cycle with the one before and sends a snap (t=0), appearances (t=1) and disappearances
-- (t=2). The backend validates every message (src/tagpulse/ingestion/wm_wire_format.py, Wire), applies
-- it to the table tag_presence and publishes the transitions
-- (src/tagpulse/ingestion/presence_reconciler.py, Presence), in one transaction with the ingestion of
-- the reads (_handle_wm_v2_message of src/tagpulse/ingestion/mqtt_subscriber.py, Subscriber). Sync puts
-- producer and subscriber together.
--
-- Behind it. What the services publish goes through the bus (src/tagpulse/events/async_bus.py, EventBus)
-- to its subscribers. Two of them are the rule evaluator (src/tagpulse/rules/evaluator.py, Rules), whose
-- handlers turn an event into alerts under a cooldown, and the leg tracker
-- (src/tagpulse/workers/leg_tracker.py, Legs), which opens a leg when an asset leaves a facility and
-- closes it, with a verdict on its cold chain, when the asset arrives. The handlers are modelled as
-- functions of an event and of the tables; the bus takes any handler.
--
-- Files and their code:
--   Prelude, Dict       numbers, lists, results, equality and order as instances; Python's dict
--   Wire/Epc            _validate_epc; Wire/Message the Pydantic models of the messages;
--                       Wire/Compact parse_wm_v2
--   Edge/Producer       WmV2Producer: emit_cycle, _emit_snap, _emit_delta, begin_session
--   Presence            reconcile_snap, apply_appeared, apply_disappeared; Presence/View reads the
--                       table, Presence/Events reads the published events
--   Subscriber          the handler, with what a rollback does; Subscriber/Compact the handler of
--                       the compact dialect
--   Sync                a cycle emitted and delivered
--   Tokens              src/tagpulse/core/bulk_confirmation_tokens.py
--   Pending             src/tagpulse/services/pending_bulk_operations.py
--   Cache               src/tagpulse/core/ttl_cache.py
--   ImportLimit         src/tagpulse/core/tag_import_rate_limit.py
--   RateLimit           src/tagpulse/core/rate_limit.py, without its HTTP middleware
--   Edge/Dedup          clients/pi/tagpulse_edge/dedup.py
--   Rfid                src/tagpulse/rfid/epc.py: Rfid/Reader _BitReader, Rfid/Decode the tables and
--                       decoders, Rfid/Gtin gtin14_from_decoded
--   EventBus            src/tagpulse/events/async_bus.py
--   Rules               src/tagpulse/rules/evaluator.py: Rules/Conditions, Rules/Cooldown,
--                       Rules/Evaluator and Rules/Zones; Rules/Requests lists what events ask for
--   Edge/Outbox         clients/pi/tagpulse_edge/buffer.py
--   Legs                src/tagpulse/services/legs.py and src/tagpulse/workers/leg_tracker.py
--   Usage               src/tagpulse/core/usage_meter.py
--   Tests               a concrete run for each theorem
--
-- Conventions. UUIDs are numbers; the text of an EPC is the list of its ASCII codes, other texts
-- are strings; floats are exact counts of millionths, so that a comparison may differ where the
-- rounding of a float moves it, and are finite but in the compact dialect (Wire/Compact); instants
-- are milliseconds on the wire and ticks elsewhere. A table is a dict keyed by its unique index, or
-- the list of its rows; a published event is appended to a log. An exception is an error value, and
-- a method that raises leaves the state that the source leaves. A call is one step, from the first
-- row that it reads to its commit, except where a part says otherwise (a flush of Usage is two
-- steps, Pending/Overlap is about two approvals at once); a transaction that fails leaves the table
-- as it was. Every loop is structural recursion over its input, so no fuel is needed, but for two:
-- the decimal digits of a number n are taken with n + 1 steps, each of which divides by ten, and a
-- drain of the bus has as many turns as its timeout allows, an argument.
--
-- Parameters. datetime.fromisoformat (Wire/Compact), whether ingestion and commit succeed
-- (Subscriber), the content hasher and the executors of bulk operations (Pending), the stored
-- overrides of the limits (RateLimit), float() and UUID() on texts (Rules), whether a handler
-- fails, what it publishes during a drain and whether its dead letter is stored (EventBus), what a
-- custody event finds in the other tables (Legs), and fresh tokens and ids are arguments.
--
-- Not modelled: connection handling, metrics and logs, the record of refused payloads, SQL and ORM
-- declarations, HTTP routes, the starting and stopping of tasks, the texts of alerts and their
-- delivery, the mean and the percentage of a leg, floating-point position estimation, numbers that
-- overflow a float outside the compact dialect, and payloads whose JSON types differ from what the
-- models name.
pub mod Prelude
pub mod Dict
pub mod Wire
pub mod Edge
pub mod Presence
pub mod Subscriber
pub mod Sync
pub mod Tokens
pub mod Pending
pub mod Cache
pub mod ImportLimit
pub mod RateLimit
pub mod Rfid
pub mod EventBus
pub mod Rules
pub mod Legs
pub mod Usage
pub mod Tests
