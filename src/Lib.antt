-- ===== src/Lib.antt =====
-- Minori answers the messages of a team chat with an agent and runs scheduled tasks for it. This
-- library models the durable core of the program: the stores, which hold all state that outlives a
-- process, and what they promise one another.
--
-- Parts, files and code:
--   Domain      the data that the parts exchange (src/contracts/messages.ts, src/schedule/types.ts)
--   Database    the rows of the tables (src/storage/schema.ts)
--   Events      the message queue, PostgresEventStore (src/storage/event-store.ts): Events for
--               enqueue, claimReady and attachProcessingReaction, Events/Settle for complete,
--               markReplyUncertain, retry and recoverExpiredLeases, Events/Progress for the marks of
--               replies, progress replies and writes. The other children are about one subject each:
--               Rows and Lives about a call and one row, Fencing about stale claims, Reported about
--               progress replies, Capacity about what a claim takes, Once about repeated deliveries,
--               Serial and Turns about the order within a conversation.
--   Runs        the runs of scheduled tasks, PostgresScheduledRunStore
--               (src/storage/scheduled-run-store.ts): Runs for createDue, Runs/Claim for claim,
--               claimNext and extendLease, Runs/Deliver for the delivery marks, Runs/Finish for
--               finish, cancelQueuedForTask and recoverExpired
--   Schedules   the registry of tasks, PostgresScheduleStore (src/storage/schedule-store.ts): create
--               and the reads, Schedules/Change for update, Schedules/Transition for pause, resume and
--               delete, Schedules/Purge for purgeTerminalBodies
--   Admission   the stores on one database, under the advisory lock that they share: every
--               transaction is a move, a history is any interleaving of moves (the claim of
--               a run by its id, which the program does not call, is left out). Calm, Quiet, Peaceful,
--               Registry, Moves, Shared, Claims and History are about the slots, Delivery about
--               deliveries, Lifetimes, KeptRuns, Kept and Versions about tasks.
--   Worker      one claimed message from claim to settlement, MessageWorker.process
--               (src/worker/message-worker.ts), with process itself in Worker/Process; the other
--               children are about what is sent (Replies), how it ends (Endings, Released), what is
--               repeated (Again), with what it is given back (Tries) and when (Delays), and which calls
--               of the event store its actions are (Calls)
--   Scheduled   one scheduled run from claim to end, processOne (src/schedule/worker.ts), its
--               transactions interleaved with those of others
--   Dispatch    which occurrence of a task is due, the poll that stores its run and the dispatcher
--               with its timer and health (src/schedule/dispatcher.ts), with the calendar in
--               Dispatch/Calendar and the reading of a typed schedule in Dispatch/Normalize
--               (src/schedule/calendar.ts)
--   Recent      the messages that the agent gets: the budget of tokens
--               (src/agent/context-window.ts and src/storage/conversation-store.ts), in Recent/Store
--               the conversations and messages that are stored, in Recent/Search the search in a
--               conversation
--   Audit       the records of agent runs and of their writes, PostgresAgentRunStore
--               (src/storage/agent-run-store.ts): Audit for the runs, Audit/Tools for what tools have
--               read, Audit/Write for beginWrite and finishWrite with the mark that a begun write leaves
--               on its message or scheduled run, Audit/Receipts for the list of a run's attempts
--   AgentRun    the audit of writes, and in AgentRun/Run the run of the agent from its start to its
--               stored outcome (src/agent/run.ts)
--   Content     the text and the links of a chat message (src/feishu/message-content.ts), posts in
--               Content/Post
--   Gateway     a received message from the platform to the event store: normalization
--               (src/feishu/normalize-event.ts), and in Gateway/Handle the handling of src/feishu/gateway.ts
--               with its errors
--   TeamContext the team's context document: its snapshots (src/storage/team-context-store.ts), the
--               texts in TeamContext/Text, load in TeamContext/Source and TeamContext/Load, update in
--               TeamContext/Update (src/team-context/source.ts)
--   Commands    the command lines that the program may run (src/lark/command-catalog.ts)
--   ChatDirectory
--               the group with a name, as the target of a task (src/feishu/chat-directory.ts); Exact is
--               about what is remembered of the pages, Named and Pages about the groups on them
--   Sources     the registry of an agent run's sources (src/agent/sources.ts) and their list under its
--               reply (src/worker/source-format.ts)
--   Coordinator the loops that share the free slots (src/worker/admission-coordinator.ts)
--   ProgressReply the reply that says that the work goes on (src/worker/progress-reply.ts)
--   Common      tests on numbers and options, lists, tables and their statements
--
-- A table is the list of its rows, and a statement of SQL is a function on it: select, count, exists,
-- find and update by a Boolean test. A method is one transaction: a function from the rows before it
-- to the rows after it and its result. An exception that rolls a transaction back is a result with the
-- rows unchanged. Clock readings are arguments: now is the start of the transaction, clock a reading
-- of clock_timestamp(). Rows that SKIP LOCKED passes over are an arbitrary Boolean test. Identifiers
-- are numbers and dates are milliseconds, both without bound, as the code relies on no wrap-around.
--
-- The worker is a function of the answers that it gets from outside, to the list of the calls that it
-- makes and how it ends: any answer may be a failure or the deadline. The calendar's loops are bounded
-- by the eight steps of the code. The iterator of cron-parser is a parameter; that it steps forward is
-- a named hypothesis. The parsers of JSON, of URLs, of cron expressions and of dates are parameters as
-- well, and so is how the database and the platform change the case of letters.
--
-- Not modelled: the timers and loops of the workers, but for the admission loop, the dispatcher and
-- the progress reply; the driver of the database, serialization failures and retries of a
-- connection; the clients of the chat platform and of the model, and the services that call them;
-- the run of a command line, retention, logging and configuration.
pub mod Admission
pub mod AgentRun
pub mod Audit
pub mod ChatDirectory
pub mod Commands
pub mod Common
pub mod Content
pub mod Coordinator
pub mod Database
pub mod Dispatch
pub mod Domain
pub mod Events
pub mod Gateway
pub mod ProgressReply
pub mod Recent
pub mod Runs
pub mod Scheduled
pub mod Schedules
pub mod Sources
pub mod TeamContext
pub mod Worker
