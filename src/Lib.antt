-- ===== src/Lib.antt =====
-- ReLab runs workflows of steps on a pool of workers and keeps, for every run, a journal of events
-- next to the rows of the run and its tasks. This library is about the single writer of both, the
-- engine, about the journal, and about the reducer that rebuilds a run from its journal alone.
-- Paths are those of the repository.
--
-- Common holds the names that the other modules share: Boolean tests, list functions and integers
-- over the native numbers (Common/Tests, Common/Lists, Common/Int), association lists
-- (Common/Assoc), and the result of a call that may fail with the rules for its postconditions
-- (Common/Outcomes).
--
-- Event is internal/event. Event/Kind has the types of type.go (`known` is Known, `terminal` is
-- Terminal); Event/Payload the structs of payload.go; Event/Json the JSON values that they are
-- stored as, whose keys are matched to fields as encoding/json matches them, by folded case and
-- with the last member first; Event/Encode and Event/Decode are Encode and Decode; Event/Log is
-- log.go, where `append` is Append, `read` is Read and `read_from` is ReadFrom. A name that is no
-- declared type is `other`. Event/RoundTrip relates the two directions.
--
-- Replay is internal/replay. Replay/State is state.go, Replay/Reduce is reduce.go and decode.go:
-- `reduce` is Reduce, `apply` is apply, and `Fold` holds the loop's variables. Replay/Emitted,
-- Replay/Extend and Replay/Accepted are about the reducer on the events that Append writes, on a
-- growing log, and on the logs that it accepts.
--
-- Workflow is internal/workflow: definition.go in Workflow, validate.go in Workflow/Validate
-- (`validate`, `valid_name`, `problems`) and Workflow/Cycle (`find_cycle`), with a data type of
-- problems in place of their texts. Durations are in milliseconds, fractions in thousandths; the
-- YAML text of a definition and its hash are outside. Workflow/Accepted is about what is accepted;
-- Workflow/Coloured, Workflow/Acyclic and Workflow/Explored are about the search for a cycle, and
-- Workflow/Ranked about the cycles that it leaves none of.
--
-- Engine is internal/engine. Engine/Status is state.go; Engine/Rows has the rows of one run (`Db`)
-- and the shapes of the SQL statements: `update` for a statement on one task, `update_all` for one
-- on all, `affects` for RowsAffected, `emit` for event.Append within the transaction, `in_tx` for
-- InTx. Engine/Runs is CreateRun, Engine/Claims is tasks.go with RenewLease, Engine/Outcomes is
-- outcome.go, Engine/Reaper is reaper.go with promote.go, Engine/Cancel is cancel.go,
-- Engine/Workers is workers.go with sweepWorkers, Engine/Sweep is Reap. Each operation is one
-- transaction and a function to a result: an error leaves the rows as they were. Engine/Operations
-- joins them: a `Call` is one call of a method with its arguments, `transact` runs it, and
-- `Reachable` has every state that calls lead to from CreateRun, in any order.
--
-- Engine/Table, Engine/Selection and Engine/Faithful have the proofs: Engine/Faithful states what
-- a sound state is, its children prove operation by operation that a sound state stays sound,
-- Engine/Faithful/Reached joins them, and Engine/Promises says what follows for a reader of the
-- rows or of the journal. Engine/Budget does the same for the attempts of a task against its retry
-- policy (`allowance`). Engine/Progress is RunProgress, Stalled and QueueDepth of promote.go; its
-- children prove, operation by operation, what a run needs to go on (`Lively` in
-- Engine/Progress/Kinds): a pending task has a dependency that has not succeeded, and none that is
-- dead. Engine/Executor is executor.go: `execute` is Execute, and `invoke` of
-- Engine/Executor/Invoke turns what a handler did into an outcome; handlers and faults are
-- functions on the rows and on a world of their own. Engine/Executor/Protocol says in which order
-- an execution reaches its points, its handler and its transactions, for any handler and any
-- faults that write to the journal only, as those of internal/faultengine do, and
-- Engine/Executor/Protocol/Ordered proves it; Engine/Executor/Final is about the outcomes.
-- Engine/Leases and Engine/Induction have what the proofs share. Tests has a run of three steps on
-- which the theorems are applied.
--
-- What comes from outside is an argument: the clock, new ids, the seed of a run that was given
-- none, the rows that another transaction has locked (SKIP LOCKED), the backoff delay, the wording
-- of a failure. A task is identified by its name, which the table keeps unique in its run, and the
-- operations that sweep all runs are modelled on one run's rows, so that their limits (200 leases,
-- 100 retries, the claim's limit) count the rows of that run, and the leases that WORKER_LOST
-- counts are those of that run. Run ids are texts, worker ids and times are numbers, a time is a
-- number in JSON, and of the payloads' integers only seeds and draws may be negative, as no other
-- is when this program writes it. Where a statement returns the rows that it changed, whose order
-- SQL leaves open, they are taken in the order in which they were selected. `truncate_error` cuts
-- at a character where Go cuts at a byte. Theorems on a run assume of its definition that each
-- step is the one that its name finds, which `validate`, called before a definition is registered,
-- makes sure of by refusing two steps of one name.
--
-- Two loops have no evident end and run on fuel: the search of `descendants`, with one round for
-- the first name and one for every step, and the depth-first search of `find_cycle`, with one
-- level for every step and one more; for each a theorem says that this is enough. Every other loop
-- is over a list.
--
-- Fault is internal/fault: `Point` (here `trigger`), with matches, decide, fire and apply. At a
-- point, probabilities and draws are of any type with the comparisons that the code makes;
-- validation reads a probability as a `Float64`, which may be infinite or not a number, and the
-- random value of a key is an argument, as `derive` is; keys are kept as position, task and
-- attempt, not as one text. An injector is one with a scenario; its recorder may be nil. Of a
-- parameter only what is read is kept, and whether encoding/json can write it. Waiting, reading a
-- duration and recording an event are arguments; `killed` is the end of a process, after which
-- nothing of it runs.
--
-- Fault/Scenario is scenario.go with types.go and the ShouldDuplicate of apply.go; a scenario's
-- YAML text and its hash are outside. Replay/Diff is diff.go with the VerifyArtifacts of load.go
-- (`compare_runs` is Compare); Replay/Agree, with Replay/Agree/Tasks, is about what it reports.
-- Config is internal/config/config.go: the timing and its reading from the environment, and the
-- check of the API's settings; Config/Accepted is about what the checks let through. Assert is
-- internal/assert; times are in milliseconds there, and zero is the zero time. Idem is
-- internal/idem: a call of Do is cut where it waits for the database or for the effect, `advance`
-- makes one step of one attempt's call, and a schedule is a list of such steps with what each
-- meets: a database that fails, with or without the statement's effect, and what the effect
-- returns.
--
-- Not modelled: the coordinator and the local runner; the cache of injectors; the event
-- SIDE_EFFECT_SKIPPED; the parsing of API tokens and of the bind address; listing queries; the
-- rendering of reports; the HTTP interface, the command line, telemetry and the database driver,
-- which are input and output.
pub mod Common
pub mod Event
pub mod Fault
pub mod Replay
pub mod Assert
pub mod Idem
pub mod Config
pub mod Workflow
pub mod Engine
pub mod Tests
