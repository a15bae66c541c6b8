-- ===== src/Lib.antt =====
-- The fleet core of the project-development skill, in Python: the checks of a plan, the record of a
-- run that schedulers and workers share, the life of a task and its gates, the log of events with the
-- reports on it, the subscriptions to events, and the reports on a worker's health. The readiness view
-- joins the diagnosis of a worker, the report on the log and the reconciliation of log and record.
--
-- Parts
--   scripts/pd_fleet/lifecycle.py: Lifecycle.antt has TaskLifecycle, its table of transitions and
--     its methods under their Python names; Lifecycle/Gates.antt has GatePolicy. A method returns
--     the object beside the error, so what a method wrote before it raised is seen; its `now` may be
--     left out, an instant, or something that `_seconds` raises on. Lifecycle/Diagram,
--     Walks, Terminal, Attempts and Orphans hold proofs.
--   scripts/pd_fleet/run_store.py: Store.antt and its files. State has the snapshot, Validate
--     `_validate`, Redact `_redact`, Disk the two files with `_valid_snapshot`, `load`, `_write` and
--     `_mutate`, Leases `claim`, `use`, `renew`, the token and the scheduler's `release`, Commits
--     `transition`, `update_task_status` and `commit`, Events the two ways to append an event, Batch
--     `claim_many`, Ops the calls as data. The callback that a method gives `_mutate` is the function
--     whose name ends in `_step`. Evolution says what no call undoes; Validity, Evolution, Refinement,
--     Inversion, Capacity, Crash, History, Fencing and Lost hold proofs.
--   scripts/pd_fleet/scheduler.py: Scheduler.antt has the ready ids and the paths that tasks own,
--     Scheduler/Select.antt `claim` and the selector it hands to `claim_many`, Scheduler/Stale.antt
--     `recover_stale`, with what other calls do between its own as a parameter; Scheduler/Ready,
--     Scheduler/Apart and the files below Stale hold proofs. `release` is in Store/Leases.antt.
--   scripts/pd_fleet/supervision.py: Supervision.antt, the diagnosis of a health snapshot.
--   scripts/pd_fleet/readiness.py: Readiness.antt, the view that joins three reports; the first is
--     the diagnosis of Supervision.
--   scripts/pd_fleet/provider_routing.py: Routing.antt, the choice of a provider and its audit;
--     Routing/Choice holds proofs.
--   scripts/pd_fleet/gateway_subscription.py: Subscription.antt has GatewaySubscriptionStore with its
--     methods under their names, the delivery in Subscription/Delivery.antt and the calls as data
--     in Subscription/Calls.antt; Span, History, Reading, Outbox, Owed, Ingestion and Detached below it
--     hold proofs. The rounds of the loop in `ack` are the distance to what was delivered.
--   scripts/pd_fleet/gates.py: Gates.antt has the checks of payloads, Gates/Results.antt GateResult,
--     Gates/Policy.antt GatePolicy, Gates/Human.antt and Gates/Scope.antt HumanVerificationGate;
--     Honest, Verdict, Approval and Roundtrip hold proofs. Fallible.antt has the calls that give a
--     value or raise.
--   scripts/pd_fleet/events.py: Events.antt has the log of EventLog, with `append`, `replay` and
--     `query`; Events/Diagnostics.antt has event_diagnostics.py. Order, Overflow and Continuity hold
--     proofs.
--   scripts/pd_fleet/run_event_reconciliation.py: Reconciliation.antt compares a snapshot of the run
--     store with the log; Reconciliation/InStep holds proofs.
--   scripts/pd_fleet/validation.py: Validation.antt has `validate_dag`, the contract of a task and the
--     gates of waves, Validation/Ownership.antt `validate_ownership`; Depth, Acyclic, Walks, Sound,
--     Serial and Searches hold proofs. The depth of the recursion of `visit` is the number of the graph's nodes,
--     that of `reaches` one more; Python's own limit on recursion is not modelled.
--   Base.antt, Value.antt and Dict.antt hold what they share: tests and lists, decoded JSON, and a
--   Python dict as its items in insertion order. Examples.antt runs the definitions.
--
-- How the model stands to the code
--   Instants are counts of ticks; the store compares instants as text in one fixed-width form, whose
--   order as text is the order in time for the store's own clock. A duration is a whole number of
--   ticks, with its sign; one of less than half a microsecond, which the store rounds to none, is not
--   modelled, nor an expiry past the year 9999. The instants of gates.py are whole seconds from the
--   first datetime, and past the last one it raises. An exception is its class. Statuses and reasons
--   with a closed vocabulary are data types. Loops are recursions over a list or a text; the one in `ack` counts its
--   rounds, and the searches in a plan their depth.
--   `re`, `datetime` and `hashlib` are not modelled: Env has the search for sensitive keys, the
--   replacement in texts, the reading of an instant and the digest as parameters, and Posix what the
--   scheduler takes of `PurePosixPath`; Patterns of Routing.antt and Env of Gates/Human.antt have the
--   tests by regular expressions there, and Json of Events.antt the text and the length of a line.
--   Sequence numbers are natural. What a result of the run store needs of them is in Admissible of
--   Store/Ops.antt: a secret is an identifier and a digest has the form of SHA-256 in hexadecimal. Admissible also asks that an appended event, once redacted,
--   has an identifier that `_validate` takes, which `append_event` itself does not check.
--   The store's lock makes calls follow one another, so a history of a run is a list of calls.
--
-- Left out
--   Snapshot fields that no call reads, the checksum and JSON text, symbolic links and file
--   descriptors, `create`, the text checks of handoff.py, the scheduler's table of claims
--   in memory, the payload checks of an event, `validate_plan` as a whole and the ready tasks of a plan,
--   and the other files of scripts/: checkpoints, the reading of plans, the orchestrator, providers, the
--   rest of the gateway and the command line.
pub mod Base
pub mod Value
pub mod Dict
pub mod Lifecycle
pub mod Supervision
pub mod Readiness
pub mod Store
pub mod Scheduler
pub mod Routing
pub mod Subscription
pub mod Events
pub mod Validation
pub mod Reconciliation
pub mod Fallible
pub mod Gates
mod Examples
