-- ===== src/Lib.antt =====
-- Coffee Cloud: the payment, refund and production core of the backend under app/.
--
-- An order (`sales_order`) is paid by one of its payments, the primary one; extra or late
-- payments are refunded. A payment channel confirms a payment by a callback, which the
-- background worker or the HTTP layer hands to `apply_paid_callback`. Refunds are intents that
-- a worker sends to the channel; `apply_refund_outcome` records the answer and settles the
-- payment. A production job follows the events of the device, and its order and its command
-- follow the job.
--
-- Files, by the part of the program that they model:
--   Base                the types and tests shared by all; Base/Decimals is Python's Decimal as
--                       app/payment_service.py uses it, Base/Values the JSON of the payloads,
--                       Base/Rows lookups and updates by key
--   PaymentState        app/payment_state.py, its graphs and decisions
--   CommandState        app/command_state.py, the graph and the decision
--   ProductionState     app/production_state.py: Orders the order graph, Jobs the job events;
--                       Lockstep relates the job, the order and the command
--   Store               the tables of app/database.py (Rows, Tables), the standard library and
--                       the drivers (Service), transactions (Monad) and what they leave (Outcomes)
--   PaymentRepository   app/repositories/payments.py, the statements used here
--   OrderRepository     app/repositories/orders.py, the statements used here
--   Transitions         app/payment_transitions.py (Payments), app/services/order_state.py
--                       (Orders), and what they change (Moves, OrderMoves)
--   Refunds             app/services/refund_intents.py (Intents, Outcomes), sums of refunds
--                       (Totals)
--   Ledger              the money invariant `Sound` and its proofs for Refunds, the automatic
--                       refund included (Automatic)
--   Callbacks           app/payment_service.py (Amounts, Confirm) and its theorems (Sound,
--                       Apply, First)
--   CommandRepository   app/repositories/commands.py, the statements used here: on a command and
--                       its outbox row, the outbox (Outbox), new commands (Creation);
--                       OrderRepository/Jobs, Queue and Progress have those on jobs
--   Production          app/services/command_state.py (Commands), `expire_order_for_command` and
--                       `hold_overdue_job` of app/services/production.py (Expiry, Overdue);
--                       theorems on expiry (Verdicts, Money, Frames, Endings,
--                       Coherence)
--   Commands            app/services/commands.py, what gateways call (Service); the evidence that
--                       a command may be at the broker (Evidence, Reports) and the expiry scan
--                       that reads it (Expiry)
--   DispatchRepository  app/repositories/dispatch.py, the durable queue of terminals to dispatch
--   Dispatch            the queue as a sequence of transactions (Queue, Rows), its abstract
--                       counterpart (Refinement), requests raised during a claim (Wakeups);
--                       `dispatch_next_order_result` of app/services/production.py (Next), its
--                       writes (Placed), its outcomes (Gates), active jobs (Single);
--                       `process_dispatch_batch` of app/services/background_worker.py (Batch)
--                       and the requests that it defers (Retries);
--                       `device_is_busy` of app/production_state.py is ProductionState/Busy
--   DeviceEvents        `reconcile_device_event` of app/services/production.py: checks on the
--                       payload (Metrics), failures with app/failure_info.py (Failures), answers
--                       (Replies), the writes (Apply) and the whole (Reconcile); steps that only
--                       read (Silent), the three statuses (Frames, Steps, Lockstep, Coherence),
--                       what the events refund (NewRefunds, Refunding, Money), replayed events
--                       (Replays); the statuses over the watchdog's pass (Watchdog)
--   Tests               a database on which the theorems are applied
--
-- The state is `Db`, a list of rows for each table. An operation is an `Action`, from the
-- tables to a value with the tables after it, or to an error; an error carries no tables,
-- since `UnitOfWork` of app/db/unit_of_work.py rolls the transaction back. A status text is a
-- constructor of a data type, a uuid, a serial key and a time are natural numbers, and `now()`
-- is the time of the transaction. Transactions that hold the row locks run one after the
-- other. In `apply_paid_callback`, `expire_order_for_command`, the reports of a gateway, the
-- device events and the dispatch the argument `wait` is what other transactions commit between
-- the first, unlocked pass and the grant of the row locks; in the claims, `free` tells which
-- rows no other transaction holds (`skip locked`), and a gateway's claim has a `wait` for each
-- candidate; in the passes over dispatch requests `later` is what commits between an exception
-- and the retry; in `apply_refund_outcome` the two passes read the same rows, so they are merged.
--
-- The invariant `Sound` says, for every payment, how its status stands to its amount and to
-- the sums of its refunds that succeeded and that are in flight, that refunds are positive,
-- and that their ids are distinct.
--
-- Bounds: amounts are natural numbers, since the schema checks `amount_minor > 0`; a remaining
-- budget below zero is zero, and both are refused or covered. `Decimal` products are rounded
-- half to even at 28 digits, and the fuel of `digits` is the number itself, which has no more
-- digits than that. A JSON `int` is a natural number or a negative one; a `float` is the
-- decimal that it stands for, and floats are compared exactly.
--
-- Parameters (`Host`): the streams of `uuid.uuid4()` and of the serial columns, of which
-- nothing is assumed (a clash is an integrity error of the table `refund`), the texts of a
-- uuid and of a time, the digest of a JSON value, `str.strip`, `str.startswith`, `text[:n]`,
-- the parser of `Decimal`, what psycopg writes to a text column, and the text that `->>` gives
-- for a JSON value that is no text. The thresholds and leases
-- of the settings are arguments.
--
-- Not modelled: the unique constraints of payment_event, order_transition and of provider
-- trade numbers beyond the code's own test; the partial unique index
-- uq_production_job_active_terminal, under which a second active job of a terminal is an error
-- (`link_command` writes the row as the statement says), and the foreign keys; the waits for
-- locks inside the refund services; the other services (the acknowledgement of a command,
-- payments, public orders, adjudications, the rest of the background worker, device messages),
-- telemetry, MQTT, HTTP, access control, pairing and the merchant portal.
pub mod Base
pub mod PaymentState
pub mod CommandState
pub mod ProductionState
pub mod Store
pub mod PaymentRepository
pub mod OrderRepository
pub mod CommandRepository
pub mod Transitions
pub mod Refunds
pub mod Ledger
pub mod Callbacks
pub mod Production
pub mod Commands
pub mod DispatchRepository
pub mod Dispatch
pub mod DeviceEvents
pub mod Tests
