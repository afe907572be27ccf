-- ===== src/Lib.antt =====
-- Stigmergy: a shared knowledge base that agents and people of several tenants write to. A capture is
-- queued (src/stigmergy/capture/queue.py), a worker claims it, files it in the tenant's repository and
-- reports how it ended; every page and capture belongs to a layer (src/stigmergy/kernel/layers.py),
-- whose readers are an audience (src/stigmergy/kernel/acl.py, src/stigmergy/server/acl.py); a layer can
-- be erased from the repository's history (src/stigmergy/ops/erasure.py), and while an erasure is open
-- the queue hands out none of the layer's work. The tables are shared by all tenants, and a connection
-- sees only the rows of the tenant that it acts for (src/stigmergy/kernel/tenancy.py). The server limits
-- what an identity may ask and how often an address may fail to authenticate
-- (src/stigmergy/server/ratelimit.py); people, their groups, tokens and sessions are its roster
-- (src/stigmergy/server/roster.py), which says who a credential is and in which layers they file.
--
-- Files, with paths below src/stigmergy:
--   Prelude         Boolean tests, lists, texts, association lists and rows of tables
--   Kernel/Tenancy  kernel/tenancy.py: the settings of a connection, the row policy, the two scopes;
--                   Scope has what a block under a tenant's scope sees
--   Kernel/Acl      server/acl.py and kernel/acl.py: `visible`, `_labels` and `flows_into`; Flow relates
--                   writes to reads
--   Kernel/Layers   kernel/layers.py: names, audiences and paths of layers; RoundTrip has the mappings.
--                   Body: pages as sections of units; Combine: their merging, Merge what it keeps
--   Capture/Json    the JSON objects of requests with Python's equality of dicts
--   Capture/Schema  capture/schema.py: the rows of capture_queue, tenants and layer_erasures
--   Capture/Queue   capture/queue.py. Base: errors, UPDATE and SELECT of a session. Submit: `_enqueue`
--                   and the lookup by key. Claim: `claim_next`, `release_expired`. Settle: `finish_landed`,
--                   `fail_or_retry`, `release_claim`, `retry_failed`, the reads. Invariant and Steps: the
--                   valid tables and the steps of all operations. Row, Fencing, Holder, Expiry, Turns,
--                   History, Submitted, Idempotent and Resent: single rows, leases and their end, who may
--                   settle, the order of claims, whole runs, what stays of a submission and resent requests
--   Capture/Uploads capture/uploads.py and the store of capture/evidence.py: sessions, their check, their
--                   capture and their end; Evidence, Stored, Purged and Consumed have the proofs
--   Server          server/ratelimit.py: RateLimit and Throttle; Visits, Outcomes and Bound have the admissions
--   Server/Roster   server/roster.py and `check_group_names` of server/identity.py. Names: subjects, group
--                   names and the fields of a person. People, Groups, Tokens, Sessions: the operations.
--                   Effects: what they do to each table, Steps their runs. Checked, Valid and Kept have
--                   the rules of the rows, Admins the last administrator, Found, Cutoff, Shut and SignIn
--                   what a credential gives and when it stops, Stored the update of a disabled person
--   Server/Identity `resolve_capture_layer` of server/identity.py; Filing has where the roster's people file
--   Ops/Erasure     ops/erasure.py and the failure branch of `run_claimed` in ops/erase_layer.py; Pushed
--                   has what protects a rewritten history, OneOpen and Course the runs of operations
--   Ops/Workspace   ops/erase_workspace.py: State has the requests, Tables the order of the tables, Run
--                   the run and the turn of the worker (librarian/worker.py), Cuts a turn that is cut
--                   short; Order, Chain, Empties, Others, Running and Sound have the proofs
--   Index/Fragments index/fragments.py. Lines: `_lines` and `_pieces`. Sections: `_sections` and
--                   `_merged`. Windows: `_windows`. Cut: `fragment` and the rows of the index. Prefix,
--                   Tiling, Chain, Overlap, Advance, Partition, Reassemble, Bytes and Pieces have the
--                   proofs
--   Index/Health    index/health.py: the health row of the index; Noticed has what readers are warned of
--   Knowledge       knowledge/aliases.py: Aliases has `record`, with all or none of its writes in Landed
--   Librarian       librarian/worker.py: Worker has `process_next` on top of the queue, Ends how it leaves
--                   the job; librarian/schedule.py: Schedule has the daily jobs, Due when they are due
--   Changes         changes/diff.py: Patches has the patches of the paths, Headers and Sections what taking
--                   a patch apart gives back. changes/store.py: Ledger, with what it keeps in Final and
--                   the exact patch of a change in Exact
--   Hygiene         text.py: the fence around untrusted text and the cleaning of lines; Fence has what
--                   fenced text cannot spell
--   Tests           a concrete case of each theorem
--
-- Conventions. A table is the list of its rows; a statement is a function on it, and the row policy is
-- part of every UPDATE and SELECT. An operation is one transaction, so it is one step; what concurrent
-- transactions hold (FOR UPDATE SKIP LOCKED) is a predicate `locked` on ids, free in every theorem.
-- `now` is the transaction's time and `clock` is clock_timestamp(), read once in a statement; times
-- are microseconds and UUIDs numbers, both natural numbers. An error is a value and leaves the tables
-- unchanged, except where an operation reads its result back after its transaction. `wake.writer()` is
-- a counter in Db for the queue, and left out for erasures. JSON numbers are natural numbers, and
-- objects keep their keys in a list that equality does not read in order. The rate limiter's time is
-- in ticks, sixty million to a minute, and its tokens are in parts, sixty million to a token, so that
-- refills are whole numbers where the code has floats. Text that patterns read is the list of its
-- characters. Two loops take fuel: the pieces of a line get one turn for each character, and the
-- windows of a section one for each line; both are shown to be enough. A file is its text: the
-- newline conversion of reading and writing is left out. The deletion of a workspace is several
-- transactions: a turn runs them all, and Cuts has the turns that a stop of the writer or an error ends
-- between two of them.
--
-- Code outside the repository, and input and output, are parameters: sha256, NFKC and casefold,
-- Python's int, lower and upper, the random ids and secrets, git's patches, gzip, the removal of a
-- repository on GitHub, of indexes and of checkouts, and the writer's `process`.
--
-- Not modelled: the other reads of the queue (lists, traces, latencies), the validation of requests by
-- the schema's models, how readers see layered pages (marks, order by dates), the rest of the writer,
-- the worker's loop and provisioning, git and GitHub, the ranking of search results, the agents'
-- answers, Slack, the console and the transports, and the roster's listings, schema and import of
-- legacy files, and the manifest of a change.
pub mod Prelude
pub mod Kernel
pub mod Capture
pub mod Server
pub mod Ops
pub mod Index
pub mod Librarian
pub mod Knowledge
pub mod Changes
pub mod Hygiene
pub mod Tests
