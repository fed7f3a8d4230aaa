-- ===== src/Lib.antt =====
-- forgelet: a CI/CD control plane that runs GitHub Actions workflows on Kubernetes.
--
-- A provider's delivery is recorded once and compiled to jobs, the jobs of a run are dispatched to
-- Kubernetes objects, what is observed of these is projected back, and objects that are no longer
-- needed are collected. The parts, and the files that model them:
--
-- Run (internal/run/model): JobStatus and RunStatus are the two state machines of status.go with
-- their tests of a transition; Aggregate is `AggregateRunStatus`, its `switch` and its loop; Records
-- holds the structs of run.go. Strings are lists of bytes, a `time.Time` is the number of an instant
-- and a `*time.Time` an `Option`.
--
-- Memory (internal/storage/memory/store.go): State is the struct `DurableStore`, one field for each
-- map; Create, Claim, Update and Read hold its methods under their names, each a function from the
-- state to the new state and the result; Active is the `ActiveStore`. A Go map is an association
-- list, and the theorems speak of it by `lookup`. A method holds the mutex from its first to its last
-- line, so a history of calls is a list of whole operations. A clock that a method reads within a
-- loop is a function of the job that it is read for. An identifier is drawn from `IdGen`, a sequence
-- that stands for the ULID library of internal/run/scheduler/idgen.go; that it repeats none and gives
-- no empty one is part of the invariant of the store. Invariant, Progress, Candidates, Delivery,
-- Cancel, Observed and Refusal hold the proofs.
--
-- Scheduler (internal/run/scheduler): Port has the interfaces of port.go as records of operations
-- over the states of an implementation; Ingestor, Dispatcher and Projector are the use cases over
-- any implementation; Backend gives them the in-memory stores, and its children hold the theorems
-- about crash windows and replays. A crash is a call that ends between two operations: the stores
-- are then as the first one left them.
--
-- Security (internal/security): Identity has the claims of a token, the checks of `Issue` and
-- `Verify` on them, and the nonce cache; Policy the decisions of policy.go.
--
-- Syntax (internal/workflow/syntax): Ast is the AST of diagnostic.go, Node the tree of nodes of the
-- YAML library, Document is `Parse` after `yaml.Unmarshal`, whose answer is its argument, with Parse
-- the helpers and Jobs the jobs and steps. The visitors that Go passes to `walkMapping` are functions
-- of what they fill, and each returns its diagnostics. `quote` and `decimal` stand for %q and %d.
--
-- Compiler (internal/workflow/compiler): Filters is the matching of branches, with `path.Match` as a
-- parameter; Matrix is `expandMatrix`; TopoSort is `topoSort`, whose closure `visit` is a function of
-- the marks and the order so far, on one unit of fuel for each job and one more, since every call
-- within a call marks a job; Builtin is builtin.go, whose error texts `Compile` reads; Compile is
-- `Compile` and the methods of `Compiled`.
--
-- Expression (internal/workflow/expression): Lexer is lexer.go with `parse`, Tokens its tokens, Parser
-- the functions of parser.go over the list of the tokens that are left, Syntax the nodes; Value,
-- Env, Eval, Functions and Format are value.go, env.go, eval.go and functions.go; Conditions has
-- `Eval`, `Interpolate` and `EvaluateCondition`, Glob the patterns of hashfiles.go. Numbers are a
-- type with the operations of `Float`, which stand for float64 and the packages math and strconv;
-- `Json` stands for encoding/json, and `path.Match` is a parameter of Glob. Letters are folded as in
-- ASCII; the keys of an object have an order, which a Go map lacks. An error is the kind of the
-- error with its position, without the message. The lexer has one unit of fuel for each byte and one
-- more, and each call of the parser costs one of eight units for each token and seven more: no step
-- goes through more than eight calls before it takes a token, so neither runs out.
--
-- Executor (internal/runtime/executor): FileCommand is filecommand/filecommand.go, its two loops as
-- one recursion over the lines with the heredoc that is open; Command is command/command.go;
-- Mask is the `Masker` of mask/mask.go, whose `Handler` is `handle` in Engine. Plan has the structs
-- of internal/run/plan/plan.go and of port.go, Context is expr.go, and Engine is `Run` of engine.go
-- with the functions that it calls, the
-- loop over the steps a recursion on the list of steps. `Host` stands for the processes, the files,
-- the clock, the control plane and the handlers of the actions; each step runs once at most, so an
-- answer by the index of the step can be any answer. The log is the list of the records at the level
-- of information: the lines of a process, groups, annotations and outputs. Warnings, errors and what
-- a handler of an action logs by itself, which go through the same `Handler`, are left out of it.
--
-- Controller (internal/runtime/controller): Reconcile is `Reconcile` of jobrun_controller.go with what
-- it calls, Objects the objects of api/v1alpha1 and the pod of `buildPod`. What the API server and the
-- durable store answer is a `Cluster`; what is written is the list of the calls, in order. Writes
-- holds the proofs. The list of the conditions of a status and the resources of a container
-- are types that only the Kubernetes libraries look into.
--
-- Server (internal/server): State has what the server keeps, Access the handlers of the API that
-- executors and the controller call, Source the workflows of a repository, Conditions the conditions
-- of jobs, Names the references to secrets and the names of steps, Plans `buildPlan`, and Ingest
-- `Ingest`, which joins Scheduler, Source and Plans. Secrets, Bound, Replay, Replay/Later,
-- Plans/Entries, Plans/Steps and Plans/Build hold the proofs. A request is its headers and its decoded body; the
-- token verifier, the JSON and YAML libraries and the repository's host are parameters, and the
-- source is read twice, with answers that may differ. Report is internal/report/report.go, Provider
-- the references to actions of internal/provider/github/action.go.
--
-- Prelude has the tests, texts, association lists and the sort that these share. Tests applies the
-- theorems to sample data.
--
-- Not modelled: the PostgreSQL and S3 stores, the routing of HTTP, the GitHub client, the adapters
-- of the Kubernetes client, the encryption of secrets and telemetry, which are calls of a
-- database, of services and of libraries; the process group of a step with its signals; and the
-- YAML library.
pub mod Prelude
pub mod Run
pub mod Memory
pub mod Scheduler
pub mod Security
pub mod Syntax
pub mod Compiler
pub mod Controller
pub mod Provider
pub mod Report
pub mod Server
pub mod Executor
pub mod Expression
pub mod Tests
