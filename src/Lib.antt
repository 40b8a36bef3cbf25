-- ===== src/Lib.antt =====
-- evgo: a library of parts of server programs in Go, and models of those that decide who gets in, what
-- is delivered, and which work runs when.
--
-- The parts and how they interact. A request of a client carries a context (pkg/op_context, pkg/auth)
-- that an authentication handler fills with a user: by a password hash
-- (pkg/auth/auth_methods/auth_login_phash), or by a token of a session (pkg/auth/auth_methods/auth_token,
-- pkg/auth/auth_session); a handler for sensitive requests asks for a code by SMS
-- (pkg/auth/auth_methods/auth_sms). Between requests the handlers keep their state in a cache
-- (pkg/cache) or in the database (pkg/crud). Messages between the parts of a program go through a queue
-- (pkg/message_queue): a trie finds the consumers of a selector, and each consumer has a backlog in
-- front of the channel of its feeder. Work that is to be done later is kept in the database with its
-- time and run under a lock (pkg/work_schedule). The programs of a tenant share a pool of services
-- (pkg/pool), and the tenants themselves are rows of the database that a manager keeps in memory
-- (pkg/multitenancy).
--
-- Shared: names of the libraries, tests and equality (Shared/Tests), lists (Shared/Lists),
--   the splitting of strings (Shared/Strings), int64 (Shared/Int64) and
--   association lists (Shared/Maps), which stand for Go's maps.
-- Queue: pkg/message_queue/replacing_queue.go. The linked list is a list of elements with identities,
--   and the table maps a key to the identity, as the source's map holds a pointer to the element.
--   Queue/Spec is the abstract queue, Queue/Coherence the invariant of list and table, Queue/Refinement
--   the simulation, and Queue/Interface pkg/message_queue/random_access_queue.go with its laws and the
--   implementation by the replacing queue.
-- Consumer: pkg/message_queue/consumer.go (the goroutine `process`) and feeder.go (`Push`), for any
--   queue with that interface. What other goroutines do at the same time is a sequence of moments: the
--   consumer may be closed, and the reader of the channel may take messages. The drain loop runs on
--   fuel, one more than the depth of the backlog, since every pass drops one message or ends the loop
--   (Consumer/Loop). Consumer/Delivery has the lemmas on one round, Consumer/Process the order of
--   delivery, Consumer/Bounds the limit of the backlog.
-- Trie: pkg/message_queue/selector_trie.go and level_trie.go. A map of children is a list of branches;
--   `Unregister`, which prunes on its way back, is the recursion remove_at. Trie/Children and Trie/Laws
--   say what stands at a path, Trie/Removal and Trie/Registry what registration changes, Trie/Search
--   what is found. The mutex is not modelled: an operation is one step.
-- Auth/Context: the part of the context that the handlers use, and the interface of the cache
--   (pkg/cache/cache.go) with what they rely on; the storage of the cache is a library.
-- Auth/Login: `LoginHandler.Handle` and setDelay, with child modules on the credentials, the delay after
--   a failure, and what an unknown login shows.
-- Auth/Sms: `AuthSms.Handle` and setToken, with child modules on acceptance, sending,
--   guesses and the limit of tries (Stores, Limit). One
--   cache holds both kinds of items; an item of the other kind does not decode.
-- Auth/Sessions: `SessionControllerBase` (session_controller.go) over a CRUD object as a parameter.
-- Auth/Token: `AuthTokenHandler.Handle`, GenToken and its callers; the child modules are on
--   authorization, logout and renewal.
-- Work: pkg/work_schedule/work_schedule.go: PostWork, ClaimDueWorks, AcquireWork, DoWork, ReleaseWork and
--   the rest of the operations. The table of works, the locker and the runner are parameters. The
--   child modules are on the leases of a claim (Lease, Claim), on the locks of a run, and on posting.
-- Access: pkg/access_control. A mask is a number of 32 bits, and the operations on it go bit by bit.
--   Access/Masks is on granting and revoking, Access/Decision on the rule that decides.
-- SmsManager: pkg/sms/sms_manager.go, the choice of a provider (SmsManager/Choice) and the record of a
--   message (SmsManager/Records). Go's stable sort is an insertion sort.
-- Crud: pkg/crud/crud.go. An operation is an action on a state that carries the generic error and the
--   log of the context, over the handlers of a database as a parameter. Crud/Rows is what a row offers,
--   Crud/Hoare the rules to reason about actions (one for a bind, one for each operation), and
--   Crud/DryRun what the operations do in a dry run. The paging and the counting of lists are left out.
-- Pool: pkg/pool/pool_controller.go over three tables, of pools, of services and of their
--   associations, with the laws of the tables in Pool/Tables. Pool/Consistency is the invariant of the
--   tables, with a child module for additions, removals and updates; Pool/Calls a sequence of requests,
--   Pool/Bindings the refusal to delete what is bound, and Pool/Store pkg/pool/pool_store.go, the pools
--   that a program keeps in memory.
-- Tenancy: pkg/multitenancy/tenancy_manager/tenancy_manager.go, whose three maps find a tenancy by its
--   id, its path and its shadow path, and the notifications that change them (Tenancy/Indexes). The
--   opening of the database of a tenancy is a parameter, and the codes of the errors of loading are left
--   out. Tenancy/Addresses is on the addresses of a tenancy and Tenancy/Display on its display
--   (pkg/multitenancy/tenancy.go). Tenancy/Controller is tenancy_controller.go over the operations
--   of CRUD, Conflicts the search for a path in use, Keeps and Creation what the operations keep of the
--   table, and Tenancy/Calls a sequence of requests.
-- FileStorage: pkg/filestorage/upload_part_helper.go, the parts in which a file is uploaded, which make
--   up the file (FileStorage/Parts). FileStorage/SignedUrl is signed_url.go and FileStorage/UrlManager
--   url_manager.go, with the check of a request in filedata_service/filedata_controller.go; their child
--   modules are on the expiry of a URL and on the URLs of an upload. FileStorage/Range is `ParseRange`
--   of that file. The times of a URL are seconds; sizes and indexes of parts are int64, as bit patterns
--   with operations that wrap (Shared/Int64).
-- Month: pkg/utils/month.go; Month/Order relates a month to those before and after it.
-- Tests: runs of the models at concrete inputs.
--
-- Numbers: times and durations are natural numbers of nanoseconds, where no other
-- unit is given; a request has one time, where the
-- source asks the clock several times. Cryptography, encodings, random strings, user stores and databases
-- are parameters of the models, and the laws that a theorem needs of them are hypotheses that the
-- tests fulfil with concrete functions. A write that the source only logs a failure of leaves the state
-- as it was.
--
-- Not modelled: logging and tracing, loading of the configuration, goroutines that only forward
-- channels, adapters of libraries (web servers, message brokers, ORM, cryptography), command lines, and
-- the parts of the repository that are not named above.
pub mod Shared
pub mod Crud
pub mod Queue
pub mod Consumer
pub mod Trie
pub mod Auth
pub mod Work
pub mod Access
pub mod Pool
pub mod Tenancy
pub mod FileStorage
pub mod Month
pub mod SmsManager
pub mod Tests
