-- ===== src/Lib.antt =====
-- Flash Trips: a travel planner whose web application (apps/web, Next.js) keeps the sessions of
-- signed-in planners and forwards their requests to a backend, and an orchestrator
-- (.sandcastle/main.mts) that hands tickets to coding agents. This library models the web
-- application, its server side above all, and the orchestrator's decisions on plans, labels and saved
-- state.
--
-- The parts and how they interact.
--
-- A browser signs in through two cookies. `beginOidcAuthorization` seals a transaction (code
-- verifier, nonce, state) into the first and redirects to the identity provider;
-- `completeOidcAuthorization` opens it at the callback, exchanges the code, looks up the planner at
-- the backend, and has `ApplicationSessionManager.authenticate` store a session, whose identifier is
-- the second cookie. From then on every route asks `authorize`, and forwards to the backend with the
-- stored access token only if a session comes back. The sign-out flow authorizes and then revokes.
--
--   Web/Policy        apps/web/lib/server/session-policy.ts
--   Web/Platform      Node's cryptography, encodings and JSON, which the code calls
--   Web/Store         postgres-session-repository.ts of the same directory, and the constraints of
--                     the table, src/flash_trips/adapters/postgres/migrations/versions/0004_*
--   Web/Session       session.ts: authenticate, authorize, revoke
--   Web/Transaction   oidc-transaction.ts: seal, open_cookie for `open`
--   Web/Oidc          oidc.ts: begin, complete, callback_matches, planner_url
--   Web/Principal     authenticated-session.ts, and the callback of auth/callback/route.ts
--   Web/Flow          oidc-flow.ts, sign-out-flow.ts, problems.ts
--   Web/Routes        the handlers under apps/web/app/api: trips, runs and auth/session
--   Web/Settings      oidc-runtime.ts and config.ts: what the server starts from; in
--                     Settings/Sessions, session-runtime.ts
--   Web/Planner       app/(planner)/planner/trip-station.tsx under apps/web: isRun,
--                     isPlanRevision, and start_run for startRun
--   Sandcastle/Plan       planSchema of .sandcastle/main.mts
--   Sandcastle/RunState   runStateSchema, and what persistRunState writes
--   Sandcastle/Pipeline   setPipelineLabel
--   Sandcastle/Gates      hasExternalPreRunGates
--   Sandcastle/Autopilot  selectAutopilotAuthorizations
--   Sandcastle/Environment  localConfiguration and positiveIntegerSetting
--   Sandcastle/TaskEnvironment  parseAfkEnvironment and resolveTaskEnvironment
--   Sandcastle/Pages      readPaginatedConnection
--   Sandcastle/Claims     claimIssue, promoteUnblockedQueuedIssues, authorizeAutopilotTasks
--   Sandcastle/World      what git, gh and the tracker answer during an operation
--   Sandcastle/Checkpoints  persistRunState, blockIssue, stopClaim, closeLandedIssue; in
--                         Checkpoints/Recovery recoverInterruptedRun, in Checkpoints/Integration
--                         integrateAndPublishGroup with buildIntegrationBranch
--   Sandcastle/IssuePipeline  runIssuePipeline, on the answers of its sandbox
--   Sandcastle/Round      the parts of a round of main: claims, failed Tasks, groups to publish
--   Sandcastle/Rounds     a round, the loop on rounds, main with the recovered groups, and the claims
--                         that runSandcastle stops at its end
--   Json, Prelude         JSON values; Booleans, lists, text and results that the parts share
--
-- Under a part, the modules named Laws and those named for what they prove hold theorems: for
-- sessions, Session/Access on what a granted request has shown, Session/Lifecycle on revocation and
-- rotation, Session/RoundTrip on a sign-in and the requests after it, and Session/Interleaving on the
-- steps of concurrent requests, each of which reads or writes the table once. In the
-- orchestrator, Checkpoints/Safety says what every operation on the claims keeps, ClaimSafety,
-- IntegrationSafety and RecoverySafety that each one does, Returns that recovery does not throw on
-- the way without an error of the disk, and Recovered what it guarantees; Round/Reviewed says which
-- claims a round publishes. The modules named Tests apply the theorems to concrete
-- inputs.
--
-- State and errors. The sessions' table is a list of rows that the operations pass on; a handler that
-- changes it returns the new one. A call that throws is `err`, and a value that may be missing is an
-- Option; in `authenticate` a failed insert keeps the revocation before it. Dates are milliseconds,
-- natural numbers; the clock's readings, the random bytes and the new row's identifier are arguments.
--
-- Parameters. Encryption, digests, base64url, JSON, `fetch`, `jwtVerify`, the URL parser, the
-- environment, the generated backend client and the results of `gh` are arguments. Where a theorem
-- relies on them, the hypothesis is a record or a binder: that decryption with the same key, IV and
-- additional data undoes encryption and that a tag has sixteen bytes (IsAead), that printed JSON
-- parses back (CarriesJson), that a decoding undoes an encoding. A test instantiates them.
--
-- The orchestrator. A claim is a Task that the run works on, at one of four checkpoints. `claimIssue`
-- makes one, `integrateAndPublishGroup` moves the claims of a group on and closes their tickets, and
-- `recoverInterruptedRun` takes up the claims that a stopped run left in its state file. The model
-- keeps the variables of the program, the state file, how its next writings end (a writing may throw,
-- before or after the file was replaced), and the labels and closings done to tickets in a record Run; the answers of git, gh, the agents and the publication script are the records World,
-- Merger and Workshop, which stay the same during one operation or one round. Reading pages takes
-- fuel, and one more than the number of cursors of the tracker is enough; so do the rounds of main,
-- each of which is a record of answers, and one more than the Task budget is enough.
--
-- Simplifications. Text is compared by code points; `toUpperCase` and `toLowerCase` are those of
-- ASCII; the numbers of JSON are naturals; uuids are texts; request identifiers of problem responses
-- are left out. Decimal printing has fuel one more than the number, which is more than its digits.
--
-- Not modelled: the markup of the pages, and the loading and creation of Trips on them; the rest of the
-- orchestrator (parseReview, publishIntegrationBranch, prepareIntegrationBase, the run lock, the
-- signal handler, the preflight, the deletion of temporary branches), of which the models take the
-- results; the generated client and the backend, which are behind the parameters; infrastructure,
-- scripts and tests.
pub mod Prelude
pub mod Json
pub mod Web
pub mod Sandcastle
