-- ===== src/Lib.antt =====
-- VoidStation is a private dashboard and assistant for one server. A Next.js application (src/) is
-- what the browser talks to; an assistant worker (worker/src/) runs the model's turns and keeps the
-- conversations. The application guards every request by the owner's session, and passes an
-- allow-list of requests to the worker over an internal network.
--
-- Files and code:
-- - Sqlite.antt: a statement is a state transformer that returns or throws, and a transaction
--   takes back what a throwing operation wrote. Auth and Conversations build on it.
-- - Auth: src/lib/auth-store.ts. The record Db of Auth/Tables.antt holds the tables owner_account,
--   login_attempt and owner_session; Auth/Store.antt has one definition per function, in the
--   source's names. authenticateOwner is cut at its wait for scrypt (begin_login, finish_login),
--   and so is recoverOwner. Auth/Store/Calls.antt lets these halves, of any number of server
--   processes, follow one another in any order.
-- - Http: src/lib/auth-http.ts (Origins), src/proxy.ts (Proxy), the routes
--   src/app/api/auth/login/route.ts and src/app/api/auth/logout/route.ts and the session check of
--   the data routes (Login), the bounded reading of a body (Body). Configured says
--   without the code's tests what an origin is, Sender and Passes what is accepted.
-- - Conversations: worker/src/store.ts. Tables holds the schema with its keys; Timeline, Turns,
--   Evidence, Settings, Listing and Deletion hold the operations; World adds the transcript files,
--   and a deletion runs step by step, so that a crash can come between any two. Calls lets all of
--   these, crashes and restarts follow one another in any order.
-- - Worker: worker/src/server.ts and providerFailure of worker/src/pi.ts. Tasks holds the state
--   (activeTurns, gates, store), Submission submitTurn in the two halves that its wait for
--   checkAuth separates, Session runTurn event by event and shutdown, Events the events in any
--   order.
-- - Gateway: src/lib/assistant-worker.ts (Forward, Relay) against the router of
--   worker/src/server.ts (Routes); Json is what both look at in a body.
-- - Thread: src/components/assistant-thread.ts.
-- - Videos: src/lib/video-embed.ts, on URLs as the URL parser takes them apart. Embed holds
--   videoEmbed and messageVideos, Verified verifiedVideoKeys.
-- - Downloads: worker/src/downloads.ts (Text, Records, Items, Queue, Snapshot, Cache) against the
--   check of src/lib/downloads.ts (Contract), its fetch and src/app/api/downloads/route.ts (Fetch);
--   Values is the JSON between them, with its numbers.
-- - Host: src/lib/host-metrics.ts. Text holds its regular expressions, Counters, Memory, Drives
--   and Status the parsers and the measurements, Metrics the collection of all of them.
-- Children named for what they prove (Invariant, Recovery, Coverage and so on) hold lemmas and
-- theorems; Examples hold tests and concrete instances.
--
-- Conventions: numbers are natural numbers; no operation of these files wraps around. A clock
-- reading, a random value and a drawn identifier are arguments. A text that the program walks is a
-- list of its UTF-16 units or bytes (in Values and Downloads: of its code points, with their UTF-16
-- length written out), and a text that it only compares is a String. A double is a sign, digits and
-- a decimal scale; the quotients of Downloads and Host (progress, CPU shares) and the decimals of
-- /proc are exact, where the program rounds them to doubles. Times of the conversation tables stand
-- for ISO texts, which order as they do. Loops are structural recursions over the list that they
-- read, so no fuel is needed, but for the decimal digits of a number: low_digits of Downloads/Items
-- has fuel for 16 digits, as many as a safe integer has. crypto (scrypt, SHA-256, base64url), the
-- URL and form parsers, JSON, toLowerCase, Date.parse and toISOString, the model catalog of the Pi
-- runtime and the path functions of the platform are parameters, with what is relied on as
-- hypotheses of the theorems that need it.
--
-- Not modelled: opening the database files, the PRAGMAs and migrations, the path checks of
-- worker/src/store.ts, getDetail and the backfill of the timeline; HTTP servers, timers, event
-- streams and subprocesses; web fetch, web search and media tools; the reading of the host's
-- sources; the pages; scripts and deployment.
mod Prelude
pub mod Sqlite
pub mod Auth
pub mod Http
pub mod Conversations
pub mod Worker
pub mod Gateway
pub mod Thread
pub mod Videos
pub mod Values
pub mod Downloads
pub mod Host
