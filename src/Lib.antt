-- ===== src/Lib.antt =====
-- A model of the core of nagisa, a self-hosted network disk: its permission masks and roles, the access
-- rules, the repository layer, and the usecases of the tree, the accounts, the share links, the sessions
-- of users, the uploads, the settings and the audit trail.
--
-- Perm (internal/biz/model.go): permission masks as the bit patterns of int64, the enumerations, the
--   permission catalog and the role presets.
-- Access (internal/biz/access.go): `EvaluateNodeAccess` and what it is made of, as functions of the
--   caller, the node, its ancestors and the entries by node.
-- Store (internal/data/node.go, user.go, file.go, data.go and internal/biz/store.go): the tables as lists
--   of rows, each repository method as a step on them that may fail, and `WithTx` as `with_tx`, which
--   gives the old tables back when the step fails.
-- Tree (internal/biz/node.go): the methods of `NodeUsecase` over those steps: chain and evaluation,
--   names, creating, updating, moving, trashing, restoring and purging nodes, listings, search, entries
--   and unlocking. Its proofs stand in Tree/Shapes (the invariant of a tree in terms of parent, path and
--   depth alone) and Tree/Invariant (that the operations keep it).
-- Accounts (internal/biz/user.go): creating, updating and deleting an account by an actor, with the rank
--   and permission tests, on the same tables and steps.
-- Shares (internal/biz/share.go): creating, updating and deleting links by their owners (Shares/Links),
--   and what visitors do with them (Shares/Visitors).
-- Crypt and Auth (internal/pkg/crypt/token.go and internal/biz/auth.go): the tokens of the API, and login,
--   refresh, logout and password changes on the session table.
-- Files (internal/biz/file.go): upload sessions and their parts, the commit of content into the tree,
--   revisions, addresses and copies. Files/World is the state they act on: the tables and the object store,
--   whose functions are a record, since what is done to objects is not rolled back.
-- System (internal/biz/system.go): the runtime settings, on a table of their own, and the jobs of the
--   maintenance that expire sessions and links and purge the trash.
-- Audit (internal/biz/audit.go and internal/data/audit.go): the trail of actions, on a table of its own.
-- Prelude holds the numbers, texts, lists and bit operations they share.
--
-- The caller, which the code carries in a context, is an argument. A uuid is a number with `uuid.Nil` as
-- 0. How a uuid is written, how a text is put in lower case and which identifiers are minted are the
-- fields of `Platform`; `IsStandard` states what their documentation promises. The instants of the code
-- are numbers, passed in. A loop of the code is a recursion on the list it runs over; the ancestor chain
-- runs at most `max_depth` rounds, as in the code, and the search for a free name 99999. A copy goes down
-- at most `max_depth` + 1 levels, the last of which the code refuses.
--
-- The functions of the libraries for tokens, hashes and ciphers are the fields of `Crypto`; the random
-- tokens that the code draws are arguments.
--
-- Not modelled: database failures other than a missing row, integer overflow of sizes and counters,
-- statistics, the counts of the trail by day, the draining of the queue of objects to delete and the
-- sweep of orphans, the start-up, the transport, and generated code.
pub mod Access
pub mod Accounts
pub mod Audit
pub mod Auth
pub mod Crypt
pub mod Errors
pub mod Files
pub mod Perm
pub mod Prelude
pub mod Shares
pub mod Store
pub mod System
pub mod Tree
