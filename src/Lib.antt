-- ===== src/Lib.antt =====
-- A verification library for the reference node of Scientific Protocol: the TypeScript under src/.
--
-- The node is a set of services over one Postgres database and a chain. Workers claim replication
-- jobs and artifact maintenance tasks as leases from the coordinator's tables, keep them by
-- heartbeats and end them; a reaper opens again what was abandoned. The work graph shows the items
-- of a claim to the agents, with what each item still needs, its priority and whether it may be
-- claimed. The reward policy divides the pools of a claim among the work done. The API limits the
-- requests of each client.
--
-- Lease, and the modules below it, hold what the two queues of src/coordinator/store.ts share:
-- tables as functions from keys to rows, the SQL statements as functions on them, and their laws.
-- Replication and Maintenance model the queue of replication jobs and that of artifact maintenance
-- tasks, with the source's columns and one function for each exported operation; Maintenance also
-- has the search for a live task of the same identity. Replication/Stranded has the histories in
-- which a worker completes a job whose lease it has lost. A transaction is one function on the store,
-- as if transactions ran one after another. Rows that other transactions lock enter as the parameter
-- `locked` of the statements that skip them. NOW() is an argument, in milliseconds. Foreign keys and
-- the unique indexes of ops/migrations are not modelled: the calls are taken to name rows that
-- exist.
--
-- Work models src/work: Types (types.ts), Policy (policy.ts), Orchestration (orchestration.ts),
-- Routing (routing.ts), Scheduling (scheduling.ts, and the passes of finalizeWorkItems in graph.ts),
-- Selection (selection.ts, with `localeCompare` as a parameter) and Status (the statuses of
-- graph.ts), each with the functions of that file under their names. The statuses come from the
-- queues, which have the run states of Lease. Counts are natural numbers. Branches lists the returns
-- of an orchestration with their conditions, and the modules after it prove what follows.
--
-- Rewards models the division of a pool in src/rewards/policy.ts with the kinds of
-- src/rewards/types.ts, in wei, with divisions that round down, and in Rewards/Demand the demand
-- signals that its caller takes from the work graph. RateLimit models the limiter in memory of
-- src/api/rate-limit.ts: the Map is a list of pairs, and the headers are the values that it sets.
--
-- Review models src/review/store.ts on keyed tables (Table): PolicyJson has the consensus policies
-- as JSON, Rows the columns and the normalization of what comes from JSON, Creation and Review the creation of a task, the claim and the end of a run,
-- Leases the heartbeat and the reaper, and Submission recordReviewSubmission, with the errors that
-- they throw. Several agents lease runs of one task, as its consensus policy allows, and their
-- submissions complete it. Left, RunKeys and Stranded are about the runs that a completed task
-- leaves. Consensus is the abstract view of a task, with its moves; Effects, Moves
-- and Submitting take each operation to one, and Refinement puts them together. Evaluation has the
-- checks of src/review/evaluate.ts and the submission that the worker makes of one, and Calibration
-- the weights and the history of src/review/calibration.ts, with a description of the credits of an
-- agent in Calibration/Credits.
--
-- Sources models the publication of extracted claims in src/sources: Decision has
-- decideSourceAutoPublication of canonicalize.ts, with `toLowerCase` as a parameter, Publication the
-- writes of store.ts, Ingestion its leases, and Winner and Attempting attemptSourceAutoPublication
-- of auto-publish.ts, whose parameter `createClaim` is a parameter here, with every way in which it
-- may end.
--
-- Webhooks models the deliveries of src/agents/webhooks.ts: their rows, how they are enqueued and
-- read as due, and Dispatch the cycle that sends them, with the request to the target as a
-- parameter, a clock that stands still during the cycle and a database that fails no statement.
--
-- Pagination models src/shared/pagination.ts. Its loop is bounded by a number of rounds, and one
-- round more than there are rows is enough. All other loops are structural recursions on lists or on
-- the counter of keys. Common holds the Boolean tests, the lists over native numbers, texts and
-- results.
--
-- Not modelled: the network, the chain, the file stores and the database itself; the vectors of
-- review, the reputation, resolver and indexer parts of src/; other languages than TypeScript.
pub mod Common
pub mod Lease
pub mod Replication
pub mod Maintenance
pub mod Work
pub mod Rewards
pub mod RateLimit
pub mod Pagination
pub mod Table
pub mod Review
pub mod Sources
pub mod Webhooks
