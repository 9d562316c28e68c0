-- ===== src/Lib.antt =====
-- The operator that keeps copies of the images of a Kubernetes cluster.
--
-- Two reconcilers share the work. The one of exports (internal/controller/raczylo.com/
-- clusterimageexport_controller.go) lists the workloads of the cluster, chooses images and creates a
-- ClusterImage for each; the one of images (clusterimage_controller.go beside it) runs a job for each
-- ClusterImage and follows it to its end. Both use internal/shared.
--
-- Base, Text: shared names and lemmas; a text is the list of its code points.
-- Errors: the errors of the operator and of its calls, and results.
-- Progress: the statuses and storage targets (internal/shared/definitions.go).
-- Containers, Normalize: the rest of that file: containers, their filters and duplicates, and the
--   normalised names of files.
-- Reference, Workers: internal/shared/k8s.go: parsing image references (ProcessContainerName) and the
--   cache of them; the goroutines that gather the images of workloads (ListAndProcessResources), in
--   Workers as the order in which they end and in Workers.Threads step by step, with what they share.
-- Jobs: internal/shared/jobs.go (CreateJob, SetupS3Params).
-- Api: the two custom resources (api/raczylo.com/v1), with what the operator uses of their metadata.
-- Cluster: the calls that the reconcilers make, the answers, the state of the operator (ActiveJobs,
--   MaxParallelJobs, the cache), and methods as functions of that state with errors as values.
-- ImageController: Backup (createBackupJob), Aggregate (the loops over images and pods), Methods (Reconcile
--   and the methods behind it, each under its own name in lower case); then what is proved of them, in
--   Settling of an image that is reconciled again and again, in Fleet of several that share the slots,
--   in Failures of the errors.
-- ExportController: Selection, Cleanup, Methods in the same way, and what is proved of them, in Exported
--   of a whole reconciliation, in Failures of the errors, which may come from the goroutines of a listing.
-- Startup: Options, Run: cmd/main.go, the kinds that api/raczylo.com/v1 registers, SetupWithManager of both
--   reconcilers and SetupIndexers: the flags, the options of the manager and its servers, and the calls
--   that start the operator; Indexers, Sequence, Served: what is proved of them.
-- Samples: concrete runs.
--
-- The API server, other clients, kubelets, the environment, the MD5 digest and the finalizer functions of
-- controller-runtime are not part of the repository. The record World has their answers, each a function of
-- all calls made so far, and statements are about every World: an answer may be an error, and two equal
-- calls may be answered differently. A theorem that needs a healthy cluster has that as a hypothesis.
-- MD5 and the lower case of letters beyond ASCII are functions of World.
--
-- Go's int is the unbounded ℤ for ActiveJobs and MaxParallelJobs and ℕ for retry and restart counts, which
-- are never negative: none comes near 2 ^ 63. Every loop is over a list, so no fuel is used except to print
-- a number in decimal, where a number n gets n + 1 steps and needs no more than its digits. The loop that
-- waits for the cleanup job is over the list of rounds that it goes through.
--
-- A reconciliation is one run of a method: controller-runtime runs one at a time for each reconciler. The
-- reconcilers call ListAndProcessResources as one step, in which the goroutines end in an order that World
-- chooses, any of them cancelled; Workers.Threads has their interleavings, where a channel, the mutex and
-- the cache's methods are atomic, and ties the two together. Its last result may be taken while some
-- goroutines still run: these can only add sound entries to the cache, since the list is dropped then.
--
-- Startup has an environment of its own, Host, which answers the calls of main, each at most as often as
-- main makes it. wait.ExponentialBackoff is a parameter, with what its documentation says as the hypothesis
-- IsExponentialBackoff: at most as many checks as it has steps. The flags are what flag.Parse stores.
--
-- Settling and Fleet look at images that are served as the record Serves says. The measure `rounds`, 15 for a
-- new image, falls with each reconciliation that changes its status; those that find its job still running
-- change nothing and are counted apart (busy_rounds). Serves leaves two cases out, since slots are lost in
-- them: a container that is restarted while its job still runs (the image becomes RETRYING or FAILED and
-- ActiveJobs is kept), and a job that is gone under a RUNNING image. It also takes the restart counts of a
-- job's pods as fixed.
--
-- Not modelled: logging and its flags, sleeping, the manager with its queue and its servers, deep copies
-- (zz_generated.deepcopy.go is generated), and the worker's scripts.
pub mod Base
pub mod Text
pub mod Errors
pub mod Progress
pub mod Containers
pub mod Reference
pub mod Normalize
pub mod Api
pub mod Jobs
pub mod Cluster
pub mod ImageController
pub mod Workers
pub mod ExportController
pub mod Startup
pub mod Samples
