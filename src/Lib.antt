-- ===== src/Lib.antt =====
-- FireDrill rehearses the recovery of backups: a drill document names a backup, a sandbox and the
-- checks to run; the program fetches the backup, restores it into the sandbox, runs the checks,
-- destroys the sandbox, and writes evidence that says whether recovery is verified.
--
-- The parts and their files:
-- * Spec (pkg/spec/spec.go). Spec/Document has the types of a document, with the fields in the
--   source's order and words. Spec/Name is `nameRe`, Spec/Checks is `(*Check).validate`,
--   Spec/Validate is `(*Drill).Validate`, split by blocks as the source is, one constructor of
--   `Problem` for each message. Spec/Files is `ParseAll`, `Parse` and `FindDrill`; the YAML decoder
--   is outside, and a file is the list of what it decodes. The modules below them say what the
--   validated documents are.
-- * Verify (pkg/verify). Verify/Types has the results and the interface `Engine`, Verify/Engine is
--   `sqlEngine`, Verify/Rows is `evalRows`, Verify/Pods is `podsReady`, Verify/Run is `Run`,
--   `runOne` and the checks. A database and a cluster are records of what they answer. Verify/Run
--   has the checks' meaning in Holds, and what they report in Skipped.
-- * Drill (pkg/drill/drill.go and velero.go). Drill/World is what a drill asks of the rest: drivers,
--   sources, sandboxes, keys, sinks and the clock are functions or values of a record, so that every
--   error that they may answer is covered. Drill/Steps is the small monad of steps: an outcome, which
--   may be an early return, and the events that happened, with `defer`. Drill/Verdict and
--   Drill/Finalize are `finalize`; Drill/Run is `Run`, `runVelero` and `RunAll`.
-- * Source (pkg/source). Source/Backup is the record that a drill reads; Source/Select is the choice
--   of the newest artifact of a directory or a bucket (`latestFile`, `latestObject`); Source/Limits is
--   `uncompressedLimit` and `copyLimited`, with the wrap-around of `int64` and a writer that may fail; Source/Layers is `decrypt`
--   and `decompress` (decrypt.go, compress.go), over what the decoders answer; Source/Fetch is
--   `fetchFile`, `spool` and `parseS3URI`.
-- * Report (pkg/report). Report/Evidence is the record that a drill writes; Report/Scan reads those of
--   a directory; Report/Gate is `Gate` with `evaluate`; Report/Controls is `BuildControlReport`;
--   Report/Scorecard is `WriteScorecard`. The check of a signature is a parameter there, and so is the
--   sort of the runs, since `sort.Slice` leaves the order of equal elements open. Report/Signature is
--   `Sign`, `Verify`, `Attest`, `VerifyAttestation` and `VerifyBundle` (sign.go, attest.go, bundle.go),
--   over a record of the cryptography and of the encodings; Sound and Proven below it say that what is
--   signed verifies, and what a bundle that verifies proves.
-- * Gc (pkg/gc/gc.go). Gc/Lease is `expired`, Gc/Sweep the body that the loops share, Gc/Docker is
--   `SweepDocker` and Gc/Kubernetes is `SweepKubernetes`, over records of what the clients answer.
--   Gc/Sweep/Told and Gc/Docker/Reports are what a sweep reports of its items.
-- * Operator (pkg/operator/controller.go). Operator/Resource is the custom resource with its status,
--   `drillFromCR` and `patchStatus`; Operator/Reconcile is `Reconcile`, over the answers that a pass
--   gets, with `drill.Run` as the function of Drill/Run. The modules below it say when a pass runs a
--   drill (Due), what it records (Recorded, Effect, Told) and what the passes after it do (Once, Next).
--   The cron parser and the retry on conflicts are the libraries', and show as what they answer.
-- * Sandbox/Buffer is `LimitedBuffer` of pkg/sandbox/buffer.go.
-- * The sandboxes are Sandbox/Docker (pkg/sandbox/docker/docker.go) and Sandbox/Kubernetes
--   (pkg/sandbox/kubernetes/kubernetes.go), with `Provision`, `Destroy` and the waits, in a monad of
--   Sandbox/Steps that carries the sandbox, the calls made and an early return. Sandbox/Ready is
--   `waitReady` of Docker; Sandbox/Names and Sandbox/Env are `sanitize` and `envVars`. What is left of a
--   resource whose removal was asked for depends on the answer to that, in Sandbox/Leftover. The policy
--   that may stand already under the name that is asked for is a field of the server, as nothing looks
--   at it.
-- * The drivers (pkg/drivers) are Drivers/Postgres, Drivers/Engines (mysql and mongodb) and
--   Drivers/Velero; Drivers/Outcome is what their restores share, Drivers/Texts and Drivers/Quotes are
--   the texts that they read and quote. The modules Restores, Velero/Cleanup and Velero/Phases below
--   them say when a restore succeeds and what it leaves.
-- * Std is the part of Go's standard library that these use: `path.Match`, `path.Base`,
--   `strings.TrimSpace`, `strconv.Atoi`, and the loop that polls until a deadline. Base is what all
--   share: lists, texts, integers, sorting and results.
-- * Examples runs the theorems on concrete drills.
--
-- Durations and instants are nanoseconds: a duration is an integer, an instant a natural number, and
-- the difference of two instants saturates like `time.Since`. The seconds that evidence keeps as
-- floats are durations. Texts of messages are constructors with the values that they show. Loops
-- of the source walk lists and are structural here; the rounds of the polling of pods are the list of
-- those that begin before its deadline. `path.Match` takes fuel, one more than the length of its
-- pattern, of which every round consumes a part. `poll` of Std/Poll takes fuel for the waits of the
-- sandboxes and of postgres, one round more than their deadline has intervals: 361 for Docker, 241 for
-- Kubernetes and 182 for postgres, where a round takes an interval at least. The wait for a Velero
-- restore has no deadline of its own; it has a limit of rounds, and ends in one that is cancelled.
--
-- Not modelled: the YAML decoder and files, the terminal's progress lines and tables, the checks of
-- the mongosh engine, the streams of a sandbox, the fetching from S3 around discovery, layers and
-- limits, key files, the history, notifications and metrics, the registration of the operator with its
-- manager, and the command line.
mod Base
pub mod Std
pub mod Spec
pub mod Verify
pub mod Source
pub mod Report
pub mod Drill
pub mod Gc
pub mod Sandbox
pub mod Drivers
pub mod Operator
mod Examples
