-- ===== src/Lib.antt =====
-- EhBot collects works that are posted in chats, reviews them by rules or by hand, downloads them
-- from one of several providers, and packs them into a library. This library models the parts of
-- its own logic that decide something, and leaves out transport, SQL and files.
--
-- Prelude: the names all files share. Tests and Lists work on the native numbers; a text is a list of
-- code points, and a string of bytes is a list of numbers. Results has the type of a run that may
-- raise, and the predicate `IfOk` on what it returns. Dict is Python's dict as an association list in
-- the order of insertion. Decimal is `str` and `int` of integers, Strings the string methods.
--
-- Throttle: app/web/login_throttle.py and `authenticate` of app/admin_auth.py. The table is a Dict; a
-- login is split at the check of the password, which runs elsewhere, so that two logins can
-- interleave (`begin_login`, `finish_login`, events and `run`). Times are whole ticks. The check of
-- the password is a Boolean of the login.
--
-- Bencode: app/torrent/bencode.py. `_decode` walks an index; `parse_value`, `parse_items` and
-- `parse_fields` take the rest of the text instead. Their fuel is twice the length of the text plus
-- one, and is never spent. sha1 is a parameter. `encode` is modelled on the values that it takes.
--
-- Dedup: `group_candidates` and `removal_reason` of app/downloads/dedup.py and `display_title` of
-- app/candidates/models.py. A stable sort is an insertion from the right.
--
-- Like: `_like_pattern` and `_like_matches` of app/auto_approval/rules.py, the compiled expression as a
-- list of its parts. Rules: the rest of that file. A rule comes as JSON (Rules.Reading, Rules.Validate),
-- becomes a tree, and is rendered (Rules.Render) and evaluated on stored metadata (Rules.Evaluate). `Host` holds
-- what Python provides: floats, the case mappings of Unicode, `str` of a value and `json.dumps`; what
-- is relied on of them is `ReadsFloats` in Rules.Shape. An exception that the code does not turn into
-- its own is a failure of its own (`value_error`).
--
-- Search: app/search/query.py, from the text of the search box to SQL: Patterns, Words and Segments read
-- the text, Fields and Query make filters of it, Sql makes the WHERE fragment and its parameters.
-- The codes and labels of app/api/status.py are tables in Fields; casefold is a parameter. The fuel
-- of the segments is the length of the text, since each segment takes a character.
--
-- Broker: `LogBroker` of app/logs/broker.py. A record for a subscriber on another loop waits in
-- `scheduled` until that loop runs its callback; the events of a run are published lines, callbacks,
-- reads, subscriptions and the end of loops, in any order. A step is atomic.
--
-- Archive: app/archive/safety.py on the data of app/archive/models.py: Paths normalizes member names
-- over what is used of PurePosixPath, Images reads magic numbers, Ratio groups members by solid
-- block, Order is the natural order of pages, and Listing is `validate_manifest`. The limit of the
-- ratio is a whole number and is compared without division. Of the characters that `isdigit` takes
-- and `int` does not, the superscripts one, two and three are modelled.
--
-- Approval: app/auto_approval/service.py, sweeper.py and commit.py, over the model of the rules, with
-- the queries of app/db/database.py that they use. A query with ORDER BY is an insertion sort of the
-- rows. Service searches the first rule that matches, Sweep takes the batches of the pending
-- works in turn (the orchestrator that applies a decision is a parameter), and Commit is the
-- transaction of an automatic rejection.
--
-- Queue: app/downloads/queue.py over the tables and triggers of app/db/migrations (027, 028, 029, 031, 037,
-- 038). `Store` holds the tables, `update_job` is an UPDATE of one job with its triggers: the BEFORE
-- triggers are in Guards, the AFTER triggers in Rows. Jobs has the INSERT
-- and the DELETE of a job with theirs, and the operations that a removal and the replacement of an account
-- open. Commands and Commands.Requeue are `_apply`,
-- Ending and Finish are `finish_operation`, Receipts is `command` with the receipts by
-- which it answers a command that is sent again (the digest of a command is a parameter, and the tables
-- may change while the source of a switch is probed), Execution is `check` of app/downloads/execution.py, and Run
-- is the machine whose steps are the transactions. An identifier that the code draws at random
-- is the next number that has not been given out. The worker session of an execution is live.
--
-- Volumes: app/archive/formats.py but the detection of formats: the patterns read a name from its end. Of letters
-- without case and of digits, those of ASCII are modelled.
--
-- Downloads: the states of app/downloads/models.py, the actions on a job and its group in the queue.
-- A state is one of the constants, times are whole seconds.
--
-- The search box and the rules share their patterns (Like, Search.Patterns) and their fields (Rules,
-- Search.Fields). Approval evaluates the rules of Rules, and Queue reads the states and errors of
-- Downloads. The other parts meet in the database, of which the queue's tables alone are modelled.
--
-- Not modelled: leases, times and messages of a job, the approval that follows a job to another work, the
-- status of an intent to pack, the choice of the accounts of a replacement, the OverflowError of `float` on a huge integer in a rule, the
-- limit of Python on the digits of an `int` and on recursion, floats beyond what
-- `Host` says of them, other SQL, transport, files and processes.
pub mod Prelude
pub mod Throttle
pub mod Volumes
pub mod Bencode
pub mod Dedup
pub mod Like
pub mod Rules
pub mod Search
pub mod Broker
pub mod Archive
pub mod Downloads
pub mod Approval
pub mod Queue
