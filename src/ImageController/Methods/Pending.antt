-- ===== src/ImageController/Methods/Pending.antt =====
-- clusterimage_controller.go: results, the fields that the methods change, and the handler of a PENDING
-- image (`handlePendingClusterImage`, `checkImageExists`, `createBackupJob`).
use kubernetes_images_sync_o.Base.{ℕ, Bool, ◌||◌, ℤ, pos, ◌+ℤ◌, any, if◌then◌else◌}
use kubernetes_images_sync_o.Errors.{ok}
use kubernetes_images_sync_o.Progress.{Progress, running, success, present, progress_eq}
use kubernetes_images_sync_o.Api.{ClusterImage, ClusterImageExport}
use kubernetes_images_sync_o.Jobs.{create_job}
use kubernetes_images_sync_o.Cluster.{Key, everywhere, Call, World}
use kubernetes_images_sync_o.Cluster.Op.{Op, pure, ◌>>=◌, ◌>>◌, get_export, list_images, write}
use kubernetes_images_sync_o.ImageController.Backup.{backup_job}
use kubernetes_images_sync_o.ImageController.Aggregate.{held_by}

-- `ctrl.Result`: nothing more to do, requeue, or requeue after some seconds
pub data Outcome : Type 0 where
  done requeue : Outcome
  requeue_after : ℕ → Outcome

abbrev pub set_progress : Progress → ClusterImage → ClusterImage
set_progress p image = record image { status = record image.status { progress = p } }

abbrev pub set_status : Progress → ℕ → ClusterImage → ClusterImage
set_status p n image = record image { status = record { progress = p; retry_count = n } }

abbrev pub export_key : ClusterImage → Key
export_key image = record { namespace = image.meta.namespace; name = image.spec.export_name }

-- `r.ActiveJobs++`, `r.ActiveJobs--`, `r.MaxParallelJobs = n`
abbrev pub add_active : ℤ → Op (Unit {0})
add_active d s = (ok tt, record s { active_jobs = s.active_jobs +ℤ d })

abbrev pub set_max_parallel_jobs : ℤ → Op (Unit {0})
set_max_parallel_jobs n s = (ok tt, record s { max_parallel_jobs = n })

module _ (world : World) where
  -- `checkImageExists`
  unfoldable pub check_image_exists : ClusterImage → Op Bool
  unfolding any held_by
  check_image_exists image = do
    items ← list_images world everywhere
    pure (any (held_by image) items || progress_eq image.status.progress success)

  -- `createBackupJob`; the image has the status RUNNING afterwards.
  unfoldable pub create_backup_job : ClusterImage → ClusterImageExport → Op ClusterImage
  create_backup_job image export = do
    write world (Call.create_job (create_job (backup_job world.service_account image export)))
    let running_image = set_progress running image
    write world (Call.update_image_status running_image)
    pure running_image

  unfoldable pub start_backup : ClusterImage → Op Outcome
  unfolding create_backup_job
  start_backup image = do
    export ← get_export world (export_key image)
    created ← create_backup_job image export
    write world (Call.update_image_status (set_progress running created))
    add_active (pos 1)
    pure requeue

  -- The image is held elsewhere.
  unfoldable pub mark_present : ClusterImage → Op Outcome
  mark_present image = do
    write world (Call.update_image_status (set_progress present image))
    pure done

  -- `handlePendingClusterImage`
  unfoldable pub handle_pending : ClusterImage → Op Outcome
  unfolding check_image_exists start_backup mark_present
  handle_pending image = do
    exists ← check_image_exists image
    if exists then mark_present image else start_backup image
