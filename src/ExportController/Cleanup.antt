-- ===== src/ExportController/Cleanup.antt =====
-- `runCleanupJob` and `waitForJobCompletionAndDelete` of clusterimageexport_controller.go.
use kubernetes_images_sync_o.Base.{ℕ, List, [], ◌∷◌, ◌++◌, ltb, if◌then◌else◌}
use kubernetes_images_sync_o.Text.{Text, codes, text_eq, join}
use kubernetes_images_sync_o.Errors
use kubernetes_images_sync_o.Errors.{Error, Result, ok, err}
use kubernetes_images_sync_o.Progress.{storage_s3, storage_file}
use kubernetes_images_sync_o.Api.{ClusterImageExport}
use kubernetes_images_sync_o.Normalize.{normalize_image_name}
use kubernetes_images_sync_o.Jobs.{JobParams, setup_s3_params}
use kubernetes_images_sync_o.Cluster.{JobObject}
use kubernetes_images_sync_o.ImageController.Backup.{backup_job_image}

unfoldable pub cleanup_commands : ClusterImageExport → List Text
cleanup_commands export =
    let storage = export.spec.storage in
    let directory = export.spec.base_path ++ (codes "/" ++ (export.meta.name ++ codes "/'")) in
    if text_eq storage.storage_target storage_s3
    then (codes "./cleanup.py "
        ++ (join (codes " ") (setup_s3_params storage.s3)
            ++ (codes " 's3://" ++ (storage.s3.bucket ++ directory))))
      ∷ []
    else if text_eq storage.storage_target storage_file
    then (codes "./cleanup.py" ++ (codes "'" ++ directory)) ∷ []
    else []

unfoldable pub cleanup_job : Text → ClusterImageExport → JobParams
cleanup_job service_account export = record {
  name = codes "cleanup-" ++ normalize_image_name export.meta.name;
  namespace = export.meta.namespace;
  annotations = export.spec.job_annotations;
  image = backup_job_image;
  commands = cleanup_commands export;
  owner_references = [];
  service_account = service_account;
  image_pull_secrets = export.spec.image_pull_secrets;
}

-- What one round of the waiting goroutine meets: the context is done, the job cannot be read, or the
-- job as it is read, with the answer to its deletion should it be deleted.
pub data Round : Type 0 where
  context_done : Round
  unreadable : Error → Round
  read : JobObject → Result (Unit {0}) → Round

-- The goroutine is waiting, or it has returned. `deletions` counts the deletions that were asked for.
pub data Waiting : Type 0 where
  waiting : Waiting
  returned : (result : Result (Unit {0})) (deletions : ℕ) → Waiting

abbrev pub after_deletion : Result (Unit {0}) → Result (Unit {0}) → Result (Unit {0})
after_deletion (ok _) result = result
after_deletion (err e) result = err e

-- The loop, over the rounds that it goes through; the sleep between two rounds has no effect.
unfoldable pub wait_for_job_completion_and_delete : Text → List Round → Waiting
wait_for_job_completion_and_delete job_name [] = waiting
wait_for_job_completion_and_delete job_name (context_done ∷ rounds) =
    returned (err Errors.cancelled) 0
wait_for_job_completion_and_delete job_name (unreadable e ∷ rounds) = returned (err e) 0
wait_for_job_completion_and_delete job_name (read job deleted ∷ rounds) =
    let rest = wait_for_job_completion_and_delete job_name rounds in
    if ltb 0 job.succeeded
    then returned (after_deletion deleted (ok tt)) 1
    else if ltb 0 job.failed
    then returned (after_deletion deleted (err (Errors.cleanup_failed job_name))) 1
    else rest
