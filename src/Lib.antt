-- ===== src/Lib.antt =====
-- Verification of apipi, a server that runs agent sessions on remote workers.
--
-- The API (src/apipi/api, gateway, services, workerhub) keeps the sessions in a database and leases
-- each of them to a worker. A worker (src/apipi/worker) runs the sessions' turns in sandboxes. The
-- two talk over one websocket: commands go down, numbered envelopes go up, and each session's
-- envelopes are acked by the highest number that the API has settled. Either side may lose the
-- socket or restart at any time, so the worker keeps what is not acked in its outbox, the API keeps
-- a ledger of what it applied, and both sides keep what they need to see a repetition.
--
-- Base       Shared names: Boolean tests on native numbers, lists measured by them, dict (Dict),
--            calls that raise (Errors).
-- Outbox     src/apipi/worker/outbox.py. Ops and Spool hold the methods, Load the reload of the
--            spool files, Run the steps of a history; Spec is what a session's view of the outbox
--            promises, Moves, Refines and Lossless relate the two, Valid, Keeps, Ends and Trim carry the
--            well-formedness invariant.
-- Ingest     src/apipi/services/ingest.py: Batch is flush_batch, Batcher is IngestBatcher.
--            src/apipi/workerhub/serve.py: Serve is _run_ingest and _flush, Attempts _apply_batch.
--            Acks and Retry are about what is acked, Once about what is applied.
-- Turns      What ingest.py validates and writes, over the tables of src/apipi/store/repo.py (Store):
--            Validate is _validate, Apply is _apply, Cache is _TurnCache. Branches, Running and Keeps
--            are about the turns of a session, Same about what an envelope leaves as it was, Flush
--            puts both under flush_batch.
-- Deltas     Streamed text. Split and Relay are DeltaRelay of src/apipi/worker/deltas.py, with Buffers,
--            Order and Numbers about what becomes of the text; Hub is handle_delta of
--            src/apipi/workerhub/deltas.py, Done and Ended are about what it publishes.
-- Leases     Rows has the lease columns of a session and their calls in src/apipi/store/repo.py;
--            Inventory is reconcile_inventory of src/apipi/workerhub/inventory.py, Orphans is
--            about the leases that it takes away, Revokes about those it tells the worker to give up,
--            Exclusive about a granted lease until its end.
-- Download   content_disposition of src/apipi/store/disposition.py (Disposition), and what may stand
--            in the header (Safe).
-- Pool       PiPool of src/apipi/worker/pi/pool.py: State and Ops hold its dicts and methods, Run the
--            steps of a history with the waits between them; Load, Fits and Capacity are about its
--            limits, Leases about holds and marks.
-- Commands   src/apipi/workerhub/command_queue.py (Queue) and CommandDedupe of
--            src/apipi/worker/commands.py (Dedupe); Bounds and Acks are about the queue, Repeats about
--            ids that come again.
-- Egress     src/apipi/worker/egress/: Dns is dns.py, Policy is policy.py, Hello is sni.py; Query, Filter
--            and Reply are about the DNS filter, Decide about the policy, Records about a ClientHello
--            that is cut into TLS records.
-- Writer     ConnectionWriter of src/apipi/workerhub/writer.py (Queue), and the order of its frames
--            (Order).
-- Rate       relay_rate_allowed of src/apipi/common/ratelimit.py (Budget).
-- Fleet      choose of src/apipi/workerhub/fleet.py (Choose), and what it picks (Best).
--
-- Ids (UUIDs), clock readings and sizes are native numbers; Python's integers have no width, so
-- nothing wraps. An object that is changed in place carries a number for its identity. A dict is a
-- list of entries in insertion order with each key once; a set is a list. Awaits, locks, logs and
-- metrics are left out: each method is one step, and a history is a list of such steps.
--
-- Arguments of the model: the size of a wire frame in the outbox; in Ingest _validate and _apply, with
-- any verdict, the temporary failures included, for which Turns has the code's own, and in Attempts
-- those of each try; the text of a UUID in Deltas; in Turns what
-- _apply leaves to other services (sandbox transitions, presigned uploads, lifecycle intents, turn
-- logs) and the parsed envelope of an item; Python's
-- whitespace and urllib's quote in Download; in the egress Python's ipaddress, the names
-- that the filter allows, the fresh identifier and whatever the upstreams send back.
--
-- Fuel: the label loop of parse_question has the packet's length, and takes a byte in each round, so
-- a name is always read to its end; a ClientHello's loop has one more than the bytes, and takes
-- more than five of them in each round; the extensions and protocols take a byte or more; the tries
-- of a batch are the three of INGEST_ATTEMPTS; the slices of a delta have the text's length, and a
-- positive limit takes a code point or more. All other loops are structural.
--
-- Not modelled: the HTTP API, gateway and CLI, configuration, database models and most queries, the
-- sandboxes' processes and virtual machines, TLS and sockets, artifacts and files, images. They are
-- I/O around the parts above, or are listed in the plan of the components.
pub mod Base
pub mod Commands
pub mod Deltas
pub mod Download
pub mod Egress
pub mod Fleet
pub mod Ingest
pub mod Leases
pub mod Outbox
pub mod Pool
pub mod Rate
pub mod Turns
pub mod Writer
