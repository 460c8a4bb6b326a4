-- ===== src/Lib.antt =====
-- openpreflight: a worker that receives GitHub webhooks, enqueues a job for a commit, runs the
-- commit's pipeline, and reports the outcome as a Check Run.
--
-- How the parts interact. A delivery reaches the handler (internal/api/webhook.go), which verifies its
-- signature and reads its event (internal/webhook), looks up the binding that lets the repository in
-- (internal/store/bindings.go) and adds a row to the job table (internal/store/jobs.go). The runner
-- (internal/queue/runner.go) claims the oldest queued row, resolves the commit's plan
-- (internal/pipeline), runs its steps, writes their output to a capped log (internal/logs) and completes
-- the Check Run with a summary (internal/queue/summary.go).
--
-- Which module models which part:
--   Prelude      shared names, Boolean tests, lists measured by native numbers, signed integers.
--   Go           what the program uses of Go's packages strings, strconv, time and path.
--   Pipeline     internal/pipeline: Types the records, Checkout what is read of a checkout, Spec LoadSpec
--                and Validate, Timeout ParseDuration, Infer the detectors, Resolve the plan.
--   Store        internal/store: Models the rows, Jobs the statements on the job table, Bindings the
--                allow-list, Users the admins and their sessions, Settings the row of settings, Rotate
--                RotateSecrets, Clock the text of a timestamp. A table is the list of its rows.
--   Secret       internal/secret: sealing and opening a column, and what a GET shows of it.
--   Executor     internal/executor: ValidImage, its regular expression as an automaton, and Docker the
--                arguments of docker run.
--   Logs         internal/logs: Ansi the filter of escape sequences, Writer the capped log, Reader.
--   Webhook      internal/webhook: Signature VerifySignature, Payload Parse and isFork.
--   Api          internal/api: Webhook handleWebhook, as a function of what it reads to its answer and
--                the runner's new state; Input the request's form or JSON object, Session the guard of
--                the console, Auth the sign-in limiter and the handlers of setup, sign-in, sign-out and
--                password, Settings patchSettings, Jobs the list's query, rerun and cancel,
--                LogStream streamJobLogs and the events it writes.
--   Queue        internal/queue: Runner drain, CancelJob and resolveTimeout; Job runJob, whose stages
--                go on or return with the job's ending; Steps the step loop and its outcome; Summary
--                the report; Files the changed paths of internal/githubapp/commits.go; System the worker
--                as a whole, a step relation in which the claim loop, the goroutines, deliveries, requests
--                and restarts interleave.
--   Tests        runs on concrete inputs.
--
-- Texts are lists of code points. A stateful operation takes the state and returns the new one; an
-- error is a value. Bounds: drain runs on fuel, one round for each queued job and one more being enough
-- (drain-Settled); path.Match, whose loops read the pattern, has the pattern's length as its fuel;
-- send of the log stream has one turn more than the log has bytes;
-- time.Duration is nanoseconds in 64 bits with its overflow.
--
-- In the step relation a claim is two steps, since ClaimNextJob writes the row before startJob enters the map,
-- and so is a goroutine's end. A session's times are nanoseconds; the calls of
-- internal/store/users.go are taken in any order (Store.Users.Sessions).
--
-- A handler of internal/api is one step, though it makes its queries one after the other: two setups or two
-- deliveries at the same time are not covered. Timestamps are compared as texts, as SQL does.
--
-- Not under this repository, and so arguments of the model: the decoders of YAML, JSON, hex and
-- base64, the HMAC, SHA-256, bcrypt and AES-GCM, the floats inside time.ParseDuration, the regular
-- expression of repository names, the parsing of IP addresses, UTF-8 and its decoder.
-- What GitHub, git, Docker, the file system and the executor answer is an argument of runJob.
--
-- Not modelled: the database's own failures, log lines, symbolic links, the wake-up loop of Start, the
-- pages, Apps and instances of internal/api and internal/store, the clients of
-- GitHub and Coolify, the executor's processes, the workspace, the configuration, the web templates.
pub mod Executor
pub mod Secret
pub mod Prelude
pub mod Go
pub mod Pipeline
pub mod Store
pub mod Webhook
pub mod Queue
pub mod Api
pub mod Logs
pub mod Tests
