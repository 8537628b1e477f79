-- ===== src/Lib.antt =====
-- Breakfix: the contract of runnable content, and the lifecycle of the environments that run it.
--
-- A runnable spec says what a scenario runs: a runtime profile with its execution boundaries, the
-- initialization actions, a plan of phases with actions and assertions, and a lifecycle policy. A
-- revision binds a spec to a built artifact by digest; a report binds the results of one attempt to a
-- revision. The repository of the Server keeps these values and a queue of actions in its tables: a
-- worker claims an action under a lease, builds the artifact of a spec or executes the phases of a
-- revision, and sends the revision, the report or the failure back, which ends the lease. The
-- controller moves a runtime environment from phase to phase and hands its cleanup over to a queue,
-- from which a reaper claims it under a lease.
--
-- The modules and the code:
--   Prelude        Boolean tests, integers and lists over the native numbers
--   Text           strings as lists of bytes; strings.TrimSpace, path.Clean and maps keyed by strings
--   Errors         Go errors as values: the constructors of internal/domain/runnable/model.go
--   Runnable       internal/domain/runnable
--     Kinds, Model     model.go: string types and their Valid methods, limits and records
--     Ident            validate.go, model.go: ValidDigest, validateID, requiredString
--     Unique           the loops that refuse a repeated identifier
--     Profile, Plan    validate.go: the Validate methods of profiles, plans and policies
--     Spec             validate.go, digest.go, blank.go: specs, artifacts, revisions, digests
--     Outcome          validate.go, persistence.go: results, computePassed, VerificationReport
--     Action           action.go, action_context.go, persistence.go: what a worker is given
--     Output           output.go, assertion_output.go: captured output, the output of an assertion
--     Backoff          backoff.go: RetryBackoff
--     Reap             reap.go: requests, records and InMemoryReapQueue
--   Controller     internal/controller/runtimeenvironment
--     Environment      api/v2/runtime_environment_types.go: the custom resource
--     State            state.go: ValidateSpec, ExpiresAt, Decide, CanTransition
--     Reaper           reaper.go: RunOnce, on the queue of Runnable.Reap
--     Reconciler       reconciler.go: Reconcile and every handler below it
--   Worker         internal/worker/runnable
--     Verifier         verifier.go: Executor and Verify
--     Materializer     materializer.go, worker.go: ArchiveMaterializer, Worker.Materialize and Verify
--     Reporting        runner.go: runnerActionTimeout, runnerRetryDelay, the values of reportFailure
--     Runner           runner.go: ProcessOne, process, execute, reportFailure
--   Repository     internal/adapter/postgres/runnable_repository.go, schema_runnable.go: the tables
--     Records          StoreRunnableSpec, -Source, -Revision, ReadRunnableActionSource,
--                      ResolveRunnableRevision
--     Actions          ClaimRunnableAction, RenewRunnableAction, ReportRunnableActionFailure
--     Scheduling       ScheduleMaterialization, ScheduleVerification
--     Outputs          StoreRunnableExecutionOutput, ResolveRunnableExecutionOutput, the outputs of a report
--     Completions      CompleteRunnableMaterialization, CompleteRunnableVerification
--     Resolve          what the Server reads back of an action, and StoreVerificationReport
--     Valid            the constraints of the schema, and what the code keeps true besides
--     History, Final   sequences of calls, and what they leave of a completed action
--   Examples       concrete inputs, and the theorems applied to them
--
-- State and operations. A Validate method is a function into `Check`, which is `ok tt` where Go
-- answers nil. The reap queue is an association list, and a method takes it and gives its answer with
-- the queue after it; the mutex makes each method one step, so that a history is a sequence of steps
-- (Runnable.Reap.History). A reconciliation gives its answer and the list of the writes that the API
-- server took. Go visits a map in any order: Claim takes the order as an argument, and the other loops
-- over a map take the entries in the order of a list.
-- The repository is the record Tables; a method takes it and gives its answer with the tables after
-- it, or an error, which rolls back. Each method is one step, as its transaction locks the row of the
-- action; ScheduleMaterialization commits its statements one by one and gives the tables back with the
-- error too. A claim is given the keys of the rows that other transactions have locked, which SKIP
-- LOCKED leaves out. The runner acts on a world that its store and its executor change; a nil pointer
-- that it would follow is `none`.
--
-- Numbers. A length and a time are natural numbers, a time counting nanoseconds from Go's zero time,
-- an int64 is an integer. The doubling of RetryBackoff and the products by a second of the verifier
-- and of the runner wrap as an int64 does. Elsewhere the sums stay
-- far below 2 ^ 63, for instants before the year 2262, and are not wrapped. The recursions are on lists
-- or on a number of rounds; the one fuel, of decimal printing, is above the number itself.
--
-- Parameters. JSON encoding and SHA-256 are the record Codec of Runnable.Spec; that the hash gives 64
-- hexadecimal digits is the hypothesis HexHash where a theorem needs it. The provider of the reaper,
-- and the resolver, the provider, the queue, the API server and the clock of the reconciler, are
-- records of functions. The provider and the output store of the verifier also take and give back a
-- state of the world, so that their answers may depend on all the calls before; the strict JSON decoding
-- of the output of an assertion is a function of its record. The archive reader and the builder, the
-- materializer and the verifier, and the store of the runner do the same; whether a renewal lost the
-- lease, and whether the context of the process is over, are functions of that world. The record
-- Backend of the repository has the encoding and the decoding of a capture and the collation of keys;
-- the theorems on histories take any two specs with one digest to be for the same content
-- (SpecsApart).
--
-- Not modelled. JSON decoding, the text form of the two annotations of the reconciler, context timeouts
-- and the setup of the manager. A formatted message of the controller keeps its constant part. Of the
-- repository: texts that are not valid UTF-8, which encoding/json would change in a JSON column, instants
-- finer than the microseconds of TIMESTAMPTZ, the failure of a SQL statement, the reap queue in SQL, the binding of Operations revisions
-- and the read models of the administration. Of the runner: the endless loop of Run, the ticker of the
-- renewal and logging. The other database, Kubernetes, Incus and OCI adapters, the HTTP transport and
-- the wiring of the processes are input and output; the generation, authoring, catalog and content
-- parts are left out.
pub mod Prelude
pub mod Text
pub mod Errors
pub mod Runnable
pub mod Controller
pub mod Worker
pub mod Repository
pub mod Examples
