-- ===== src/Lib.antt =====
-- Exoskeleton: a model of the core logic of an agent runtime, and what is proved of it.
--
-- The runtime runs an agent (a vessel) in ticks. A tick perceives messages, orients, decides with a
-- language model, aligns the proposed actions with the relationships to its principals, acts through
-- tools, reflects and amends its state. Two budgets limit it, one of model tokens and one of tool
-- invocations; threads run beside the loop on schedules of their own; watches look at metrics; and a
-- prompt is compiled for every tick from sections that compete for a token budget.
--
-- Which file models which part:
--   Base           names and lemmas that all parts share: lists, maps as association lists, a stable
--                  sort, machine words, errors (crates/exoskeleton-core/src/error.rs) and the
--                  floating-point operations as an interface
--   Core.Tick      crates/exoskeleton-core/src/tick.rs: records and phases of a tick
--   Core.Plan      crates/exoskeleton-core/src/plan.rs: the plan and its updates
--   Core.WorkingMemory   crates/exoskeleton-core/src/working_memory.rs: the scratchpad
--   Core.Watch     crates/exoskeleton-core/src/watch.rs: watches and their store
--   Core.Snapshot  crates/exoskeleton-core/src/snapshot.rs: the state of a vessel between ticks
--   Core.Llm       crates/exoskeleton-core/src/llm.rs: requests to a language model and its answers
--   Budget.Config  crates/exoskeleton-core/src/budget.rs: configurations and their validation
--   Budget.Tracker crates/exoskeleton-host/src/budget/tracker.rs: the cognitive budget
--   Budget.Gate    crates/exoskeleton-host/src/budget/mod.rs: the limit on tool invocations
--   Budget.Thrash  crates/exoskeleton-host/src/budget/thrash.rs: the thrash detector
--   Relationship   crates/exoskeleton-relationship/src: the ledger, the signals that feed it, the
--                  snapshot compiled from it, and the align gate that reads the snapshot
--   Threads        crates/exoskeleton-threads/src: scheduling, the in-memory store and the registry with
--                  its summaries; crates/exoskeleton-core/src/thread.rs and exec_thread.rs: the types
--   Kernel.Types, Kernel.Tools   types.rs and tools.rs of crates/exoskeleton-host/src/kernel: what the
--                  steps of a tick hand on, and the tools that the kernel resolves itself
--   Kernel.Backend crates/exoskeleton-host/src/kernel/decide.rs and ../llm/direct.rs: the choice of the
--                  model, and a call with its accounting against Budget.Tracker
--   Kernel.Decide  crates/exoskeleton-host/src/kernel/decide.rs: the loop of turns
--   Kernel.Align   crates/exoskeleton-host/src/kernel/align.rs: signals, snapshot and gate in one step,
--                  and the watches that a decision proposes
--   Kernel.Idle, Kernel.Mode   crates/exoskeleton-host/src/kernel/mod.rs and
--                  crates/exoskeleton-daemon/src/handlers.rs: what holds actions back after a coding
--                  session, and every change of the vessel's mode as a step relation
--   Kernel.Proposals, Kernel.Passage   crates/exoskeleton-host/src/kernel/mod.rs: what the coding threads
--                  propose, and the way of a decision to Act, which puts these parts together
--   Kernel.Amend   crates/exoskeleton-host/src/kernel/amend.rs: the next snapshot and the order of the
--                  writes that make a tick durable
--   Kernel.Compaction   crates/exoskeleton-host/src/kernel/compaction.rs, over the store interface of
--                  Memory.Episodic (crates/exoskeleton-core/src/memory.rs)
--   Kernel.Policy, Kernel.Watches, Kernel.Inbox   policy.rs and watches.rs of
--                  crates/exoskeleton-host/src/kernel, and
--                  crates/exoskeleton-host/src/inbox/memory_inbox.rs
--   Memory         crates/exoskeleton-memory/src/tokens.rs and compiler.rs: the context compiler
--   Samples        concrete stand-ins for the parameters, used by the tests in each Tests module
--
-- How the code becomes definitions. A struct is a record and an enum a data type, with the names of
-- the source. A method that changes its object is a function from the state to the new state; one that
-- can fail returns a Result, and an error carries no new state; only the reset of the budget window
-- changes the state before it may fail, and returns both. Locks are left out, since nothing
-- panics while it holds one. Ids, times and artifact references are numbers; a clock or a fresh id is
-- an argument. Numbers are natural numbers, with saturation and wrap-around written out where the
-- source has them. Floating-point numbers, JSON values, the text form of an id, the persistent store of
-- the budget, the token counter, the reader of artifacts and the query of a metric are parameters; what
-- a theorem needs of one is a hypothesis or a field that states its documented behaviour, and the tests
-- give it a concrete instance. So are the HTTP client of a model, the artifact store, the content hash
-- and the cutting of white space; the answers of a client are arbitrary, errors included. Log lines,
-- metrics and live events are left out.
--
-- Loops are structural recursion over the list that the source iterates, and the loop of Decide over the
-- turns that the source counts; no definition needs fuel. A hash map is an association
-- list, whose order stands for the unspecified order of iteration.
--
-- Not modelled: the asynchronous engine and the tools, so neither the Act step nor the whole of a tick;
-- the Reflect step and the threads that call a model; the SQL stores and the HTTP clients, whose work is
-- done by libraries; the rendering of prompts; the command line, the rest of the daemon and the
-- benchmarks.
pub mod Base
pub mod Core
pub mod Budget
pub mod Relationship
pub mod Threads
pub mod Kernel
pub mod Memory
mod Samples
