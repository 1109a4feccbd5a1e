-- ===== src/Lib.antt =====
-- EtkinLink: the logic of its server functions. The repository holds a mobile client (mobile/), a
-- database (supabase/), server functions (supabase/functions/) and an edge worker
-- (infra/cloudflare/). This library models the functions that delete accounts and that follow up
-- push messages, with the modules that they share, and a first part of the mobile client.
--
-- The parts, and how they meet:
--  * Effect: an asynchronous routine is a function of a world that returns or throws and leaves the
--    list of the requests it sent, each with its reply (`Act`). Effect/Protocol says which request may
--    follow which replies, and has one rule for each way to build a routine (`Triple`).
--  * Http, Json, Text, Int, Base: requests, JSON values, UTF-16 texts as lists of code units, whole
--    numbers, lists. Text/Pattern has the regular expressions that the code uses.
--  * BoundedJson: supabase/functions/_shared/boundedJson.ts; `read_chunks` is the loop of
--    `readBoundedText`.
--  * WorkerAuth: supabase/functions/_shared/workerAuth.ts; `authorize_worker_request` is
--    `authorizeWorkerRequest`, `mix` the loop of `constantTimeEqual`.
--  * ExpoHttp: supabase/functions/_shared/expoHttp.ts; `fetch_expo_json_with_retry` is
--    `fetchExpoJsonWithRetry`, and reads its answers with BoundedJson.
--  * DeleteAccount/State, Request and Handler: supabase/functions/delete-account/handler.ts, the
--    deletion that a user asks for; `delete_account` is the handler that `createDeleteAccountHandler`
--    makes, one definition for each of its stages.
--  * DeleteAccount/Drain and Worker: supabase/functions/delete-account/worker.ts, the worker that
--    finishes deletions; `handle_continuation_worker` is the handler, `process_claim` its claims.
--  * PushDispatch: supabase/functions/push-dispatch/index.ts; `parse_dispatch_command`, `chunks`,
--    `normalize_expo_tickets`; Outcome has the counts and the status of a notification, Process the
--    whole of `processClaimedNotification` over its database, the push service and the timer;
--    Concurrency is `mapWithConcurrency`, with the order in which results come as an argument.
--  * PushReceipts: supabase/functions/push-receipts/index.ts; `normalize_receipt` and
--    `classify_receipt` in Receipt, `handle_push_receipts` in Handler, over ExpoHttp and WorkerAuth.
--  * ChatOutbox: mobile/src/shared/lib/chatOutbox.ts. Message reads and writes its messages, Storage
--    is mobile/src/shared/lib/secureStorage.ts over the keychain, Operations has what runs under the
--    storage lock (Operations/Queue the lock itself), Flush the sending and the purges. Effect/Hoare
--    says what a routine leaves in the storage, where it returns and where it stops (`Hoare`).
--  * Network: mobile/src/shared/lib/network.ts; `retrying_get_fetch` is `createRetryingGetFetch`, and
--    Body has `utf8ByteLength` and `readResponseTextLimited`, where an abort or the end of the time
--    stands among the parts of the body. The random delay is exact, then cut to milliseconds.
--  * LikesCache: mobile/src/features/matching/matchingQueryCache.ts, over a cache whose laws are
--    `IsStore`; `suppress_candidate` is `suppressCandidateFromPendingLikes`.
--
-- The record `Dependencies` of a module has the database, the storage and the clock as functions of
-- the world, any functions, so that replies may come and fail in any way. A rejected promise, and an
-- error that the database client returns, is `none` or `false`. The platform is a
-- parameter as well: the decoder of UTF-8, `JSON.parse`, `Date.parse`, `Number(text)`, the text encoder
-- and HMAC with SHA-256. What theorems assume of these has a name: that HMAC gives 32
-- bytes (`GivesDigests`), that the database moves the row it was asked to move (`MovesRow`), that
-- the cache is a store (`IsStore`), that a keychain keeps what is set and that a rejected call leaves
-- the other entry as it was, whatever becomes of its own (`IsKeychain`), that JSON text is read as what
-- it was made from (`IsJson`), and, in one theorem, that a server recovers (`Recovers`).
--
-- Loops over lists are recursions on them. The two storage loops run on fuel, as many rounds as the
-- number of objects at which the source stops: each round that goes on removes at least one object.
-- The retry loop recurs on the tries that are left. A schedule of results
-- has as many moments as there are items at most.
--
-- Answers carry a code in place of the text for people. Headers of answers that say `no-store`,
-- time limits of requests and the releasing of readers are left out. In a flush, other code of
-- the app runs while the sender does. The handler of the push dispatch, which runs several
-- notifications at once, the rest of the mobile client, the edge
-- worker and the functions that bring in events are not modelled.
pub mod Base
pub mod Int
pub mod Text
pub mod Json
pub mod Effect
pub mod Http
pub mod BoundedJson
pub mod ExpoHttp
pub mod DeleteAccount
pub mod PushReceipts
pub mod PushDispatch
pub mod LikesCache
pub mod Network
pub mod ChatOutbox
pub mod WorkerAuth
