-- ===== src/Lib.antt =====
-- A model of the core logic of Trace, a manufacturing traceability system, and theorems about it.
--
-- The program. An edge box on a factory line records the life of each unit. A route is a DAG of
-- operations; a station asks the route engine which operation a unit may start, collects scans,
-- measurements and a read-back of the mark, and asks again whether every gate of the operation
-- passes. The answer advances the unit and releases interlocks, or holds the unit back with a
-- disposition, which is applied to the unit's state machine. What happened is kept in a chain of
-- hashes. A station that is offline queues its records in a file. Labels are templates whose bindings
-- are filled in and rendered as commands for a printer. Values come from devices, or from the operator,
-- through drivers that a registry keeps connected. A tool runs a route without hardware. Around that stand signed documents: the
-- licence, issued from the state of a subscription and judged against a guarded clock, and the
-- manifest of an update, which the box stages, swaps in and, if it is not healthy, takes back.
--
-- The files.
--   Base            booleans, lists, results, texts, signed and decimal numbers shared by the rest
--   Core/Error      crates/trace-core/src/error.rs and the key types of id.rs
--   Core/Unit       crates/trace-core/src/unit.rs: UnitState, Unit, transition_to
--   Core/Unit/Payload
--                   crates/trace-core/src/unit.rs: EventKind, UnitEvent::canonical_payload
--   Core/Unit/Measured
--                   crates/trace-core/src/unit.rs: Measurement::canonical_payload
--   Core/Route      crates/trace-core/src/route.rs: Route, operation, ready_operations,
--                   predecessors_satisfied, is_complete
--   Core/Route/Validate, Core/Route/Kahn, Core/Route/Index
--                   Route::validate, Route::assert_acyclic, the sorted map that the latter uses
--   Core/Dcp        crates/trace-core/src/dcp.rs: Limits, SampleRule, DataCollectionPoint::evaluate
--   Core/Config     crates/trace-core/src/config.rs: what the engine reads of the configuration
--   Core/Engine, Core/Engine/Gates, Core/Engine/Advancing
--                   crates/trace-core/src/engine.rs: the context and the answers, evaluate_gate,
--                   and resolve_operation, try_advance, disposition_for, apply_disposition
--   Core/Chain      crates/trace-core/src/hash.rs: row_hash, append, verify
--   Sign            crates/trace-sign/src/lib.rs: TrustedKey::verify
--   Sign/Canonical  crates/trace-sign/src/lib.rs: canonical_json, Issuer::sign
--   License         crates/trace-license/src/clockguard.rs and entitlement.rs
--   Devices/Retry   crates/trace-devices/src/retry.rs: Backoff
--   Devices/Driver, Devices/Registry
--                   crates/trace-devices/src/driver.rs and registry.rs: what a driver is, as a
--                   record of operations over a state, and the registry over any such driver
--   Devices/Manual, Devices/Simulator, Devices/Line
--                   crates/trace-devices/src/manual.rs, simulator.rs and tcp.rs: three drivers
--   Updater/Manifest
--                   crates/trace-updater/src/manifest.rs: Manifest::verify, Manifest::decide
--   Updater/Apply, Updater/Apply/Calls
--                   crates/trace-updater/src/apply.rs: Updater::update with stage, activate,
--                   replace_symlink; the calls of the file system that they are made of
--   Billing         crates/trace-billing/src/catalog.rs and issue.rs: PlanCatalog, issue
--   Billing/Webhook crates/trace-billing/src/webhook.rs: SignatureHeader::parse, verify
--   Store           crates/trace-store/src/repo.rs and query.rs: append_event, append_measurement,
--                   chain_tail, verify_unit_chain, over the tables of one tenant
--   Store/Columns, Store/Recall
--                   value_from_columns; units_affected_by_lot
--   Tools/Simulation
--                   tools/route-sim/src/main.rs: run
--   Station/Spool   apps/trace-station/src/spool.rs: Spool::append, load, remove_acknowledged
--   Edge/Page       apps/trace-edge/src/page.rs: escape, render, not_found, over the rows of a history
--                   (crates/trace-store/src/query.rs: UnitHistory)
--   Mark/Binding    crates/trace-mark/src/binding.rs: render_expression, format_datetime
--   Mark/Template   crates/trace-mark/src/template.rs: LabelTemplate::validate, bind
--   Mark/Zpl        crates/trace-mark/src/zpl.rs: render_zpl, escape_field
--   Mark/Zpl/Commands, Mark/Zpl/Fields
--                   what a printer reads in a text of ZPL II: the commands, and the fields with `^FH`
--   Samples         a route, a unit and documents, on which the theorems are run
-- The other files beneath these hold the proofs, by what they are about.
--
-- Correspondence. A function of the model has the name of the code's function; a helper stands for
-- an arm or a loop of it. A call that changes its receiver returns the new value. An error is a
-- value; a message that the code formats is a constructor with the values it prints. A panic of
-- `+` on dates is `none`. A set that is only asked for members is a list. Instants and durations
-- count nanoseconds; an instant counts from the start of a day.
--
-- Files. The spool and the install root are states. A call of the file system succeeds or fails; a
-- write that fails leaves a prefix of its bytes. In the updater a list of faults says which calls
-- fail; in the spool the fault is an argument. A rename is atomic.
-- Losing the power is a failing call after which nothing more is done.
--
-- Tables. A table of the store is the list of the rows that row-level security shows to a tenant; a
-- query is what its text selects from them. A statement that fails leaves the tables as they were.
--
-- Integers. The age of a webhook is computed on the 64 bits of an `i64`, wrapping as a release build
-- does; positions of a chain are taken modulo 2 ^ 64.
--
-- Fuel. The `while let` loop of `assert_acyclic` runs on one more unit of fuel than there are
-- operations: an operation enters the queue when its count of unmet predecessors reaches zero, once.
-- `render_expression` runs on the length of its template: a round takes four characters at least off
-- it. The simulation of a route runs as many rounds as its guard allows, four for each operation: each
-- round but the last completes an operation that was open. `decimal` runs on the number and one. All other loops are structural.
--
-- Parameters. The text of a ULID, SHA-256 in hexadecimal, `f64`, base64, Ed25519, serde_json, semver
-- and chrono's formatting are arguments of what uses them, since their code is in other packages; so
-- are the sources of artifacts and the health probe of the updater, which do input and output, the
-- network behind a line driver, the HMAC of a webhook, and the parser of `f64`. So are the paths that
-- the names of artifacts lead to (`std::path`), with what writing outside the directory of a release
-- does to the install root.
--
-- Not modelled. Of the store, the queries that only select rows or insert one; the synchronisation,
-- the applications apart from the spool and the page, and the other tools: they are input and output
-- around the parts above. Job-card sources, the skew of clocks and the parsing of codes are left out
-- for now.
pub mod Base
pub mod Core
pub mod Sign
pub mod License
pub mod Billing
pub mod Devices
pub mod Updater
pub mod Station
pub mod Mark
pub mod Tools
pub mod Store
pub mod Edge
pub mod Samples
