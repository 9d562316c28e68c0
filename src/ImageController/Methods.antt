-- ===== src/ImageController/Methods.antt =====
-- The methods of `ClusterImageReconciler` (clusterimage_controller.go). `time.Sleep` and the log have no
-- effect on the state and are left out. An object that is updated keeps the status that was sent.
pub mod Pending
pub use kubernetes_images_sync_o.ImageController.Methods.Pending.{
  Outcome, done, requeue, requeue_after, set_progress, set_status, export_key, add_active,
  set_max_parallel_jobs,
}
unfoldable pub use kubernetes_images_sync_o.ImageController.Methods.Pending.{
  check_image_exists, create_backup_job, start_backup, mark_present, handle_pending,
}
use kubernetes_images_sync_o.Base.{
  ℕ, ◌+◌, Bool, ◌&&◌, ◌||◌, Option, none, some, List, [], ◌∷◌, ℤ, pos, negsuc, ◌+ℤ◌, leb_ℤ, ltb,
  leb, any, if◌then◌else◌,
}
use kubernetes_images_sync_o.Text.{Text}
use kubernetes_images_sync_o.Errors.{Result, ok, err, not_found}
use kubernetes_images_sync_o.Errors
use kubernetes_images_sync_o.Progress.{
  Progress, unset, pending, retrying, running, failed, success, present, progress_eq,
}
use kubernetes_images_sync_o.Api.{ClusterImage, ClusterImageExport}
use kubernetes_images_sync_o.Jobs.{create_job, app_label}
use kubernetes_images_sync_o.Cluster.{
  Key, JobObject, background, foreground, everywhere, of_export, Call, World,
}
use kubernetes_images_sync_o.Cluster.Op.{
  Op, pure, raise, ◌>>=◌, ◌>>◌, attempt, get_image, get_export, get_job, list_images, list_pods,
  list_jobs, write,
}
use kubernetes_images_sync_o.ImageController.Backup.{job_name, backup_job}
use kubernetes_images_sync_o.ImageController.Aggregate.{held_by, summary, new_status, first_restart}

module _ (world : World) where
  -- The error of a deletion, unless the object is gone.
  abbrev pub ignore_not_found : (Errors.Error → Errors.Error) → Result (Unit {0}) → Op (Unit {0})
  ignore_not_found wrap (ok _) = pure tt
  ignore_not_found wrap (err not_found) = pure tt
  ignore_not_found wrap (err e) = raise (wrap e)

  abbrev pub wrap_error : (Errors.Error → Errors.Error) → Result (Unit {0}) → Op (Unit {0})
  wrap_error wrap (ok _) = pure tt
  wrap_error wrap (err e) = raise (wrap e)

  -- `cleanupJobAndPods`
  unfoldable pub cleanup_job_and_pods : JobObject → Op (Unit {0})
  cleanup_job_and_pods job = do
    deleted ← attempt (
        write world
          (Call.delete_job background (record { namespace = job.namespace; name = job.name })))
    ignore_not_found Errors.delete_job deleted
    pods_deleted ← attempt (write world (Call.delete_pods job.namespace job.selector))
    wrap_error Errors.delete_pods pods_deleted

  -- The loop of `removeAllJobsAndContainers`
  unfoldable pub delete_each : List JobObject → Op (Unit {0})
  delete_each [] = pure tt
  delete_each (job ∷ jobs) = do
    deleted ← attempt (
        write world
          (Call.delete_job foreground (record { namespace = job.namespace; name = job.name })))
    ignore_not_found (λ e. e) deleted
    delete_each jobs

  unfoldable pub remove_all_jobs_and_containers : Text → Op (Unit {0})
  unfolding delete_each
  remove_all_jobs_and_containers namespace = do
    jobs ← list_jobs world namespace app_label
    delete_each jobs

  -- What `handleJobRestarts` does at the first container that was restarted; it returns the image
  -- with its new status.
  unfoldable pub record_restarts : ClusterImage → Option ℕ → Op ClusterImage
  unfolding remove_all_jobs_and_containers
  record_restarts image none = pure image
  record_restarts image (some n) =
      let count = image.status.retry_count + n in
      if leb 3 count
      then (do
        write world (Call.update_image_status (set_status failed count image))
        remove_all_jobs_and_containers image.meta.namespace
        pure (set_status failed count image))
      else (do
        write world (Call.update_image_status (set_status retrying count image))
        pure (set_status retrying count image))

  -- `handleJobRestarts`
  unfoldable pub handle_job_restarts : JobObject → ClusterImage → Op ClusterImage
  unfolding record_restarts first_restart
  handle_job_restarts job image = do
    pods ← list_pods world job.namespace job.selector
    record_restarts image (first_restart pods)

  unfoldable pub set_export_progress : ClusterImageExport → Progress → Op (Unit {0})
  set_export_progress export p =
      if progress_eq export.progress p
      then pure tt
      else write world (Call.update_export_status (record export { progress = p }))

  -- `updateClusterImageExportStatus`
  unfoldable pub update_cluster_image_export_status : ClusterImage → Op Outcome
  unfolding summary new_status set_export_progress
  update_cluster_image_export_status image = do
    export ← get_export world (export_key image)
    items ← list_images world (of_export image.meta.namespace image.spec.export_name)
    set_export_progress export (new_status (summary items))
    pure (if (summary items).all_completed then done else requeue)

  -- The end of `handleRunningClusterImage`, behind the branches on the job's status.
  unfoldable pub finish_running : JobObject → ClusterImage → Op Outcome
  unfolding handle_job_restarts update_cluster_image_export_status
  finish_running job image = do
    restarted ← handle_job_restarts job image
    write world (Call.update_image_status restarted)
    update_cluster_image_export_status restarted

  unfoldable pub job_succeeded : JobObject → ClusterImage → Op Outcome
  unfolding cleanup_job_and_pods finish_running
  job_succeeded job image = do
    add_active (negsuc 0)
    write world (Call.update_image_status (set_progress success image))
    cleanup_job_and_pods job
    finish_running job (set_progress success image)

  unfoldable pub job_retried : JobObject → ClusterImage → Op Outcome
  unfolding cleanup_job_and_pods
  job_retried job image = do
    write world
        (Call.update_image_status (set_status retrying (image.status.retry_count + 1) image))
    cleanup_job_and_pods job
    add_active (negsuc 0)
    pure requeue

  unfoldable pub job_failed : JobObject → ClusterImage → Op Outcome
  unfolding cleanup_job_and_pods finish_running
  job_failed job image = do
    add_active (negsuc 0)
    write world (Call.update_image_status (set_progress failed image))
    cleanup_job_and_pods job
    finish_running job (set_progress failed image)

  unfoldable pub job_lost : ClusterImage → Op Outcome
  job_lost image = do
    write world (Call.update_image_status (set_progress pending image))
    pure requeue

  unfoldable pub with_job : ClusterImage → Result JobObject → Op Outcome
  unfolding job_succeeded job_retried job_failed job_lost finish_running
  with_job image (err not_found) = job_lost image
  with_job image (err e) = raise e
  with_job image (ok job) =
      if ltb 0 job.succeeded
      then job_succeeded job image
      else if ltb 0 job.failed
      then (if ltb image.status.retry_count 3 then job_retried job image else job_failed job image)
      else finish_running job image

  -- `handleRunningClusterImage`
  unfoldable pub handle_running : ClusterImage → Op Outcome
  unfolding with_job
  handle_running image = do
    found ←
        attempt (get_job world (record { namespace = image.meta.namespace; name = job_name image }))
    with_job image found

  -- The `switch` of `Reconcile`.
  unfoldable pub process : Progress → ClusterImage → Op Outcome
  unfolding handle_pending handle_running
  process pending image = handle_pending world image
  process running image = handle_running image
  process retrying image = handle_running image
  process _ image = pure done

  unfoldable pub admit : ClusterImage → Op Outcome
  admit image = do write world (Call.update_image_status (set_progress pending image)); pure requeue

  -- `Reconcile`, once the image and its export are read.
  unfoldable pub reconcile_image : ClusterImage → Op Outcome
  unfolding process admit
  reconcile_image image s =
      if progress_eq image.status.progress unset
      then admit image s
      else if leb_ℤ s.max_parallel_jobs s.active_jobs && progress_eq image.status.progress pending
      then (ok (requeue_after 30), s)
      else process image.status.progress image s

  unfoldable pub with_image : Result ClusterImage → Op Outcome
  unfolding reconcile_image
  with_image (err not_found) = pure done
  with_image (err e) = raise e
  with_image (ok image) = do
    export ← get_export world (export_key image)
    set_max_parallel_jobs export.spec.max_concurrent_jobs
    reconcile_image image

  -- `Reconcile`
  unfoldable pub reconcile : Key → Op Outcome
  unfolding with_image
  reconcile request = do found ← attempt (get_image world request); with_image found
