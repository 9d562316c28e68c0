-- ===== src/ImageController/Settling.antt =====
-- One image, reconciled again and again (clusterimage_controller.go `Reconcile`, requeued): the cluster
-- that serves it, and how far it is from a status that it keeps.
pub mod Steps
pub mod Measure
pub mod Moves
pub mod Settles
pub mod Completes
use kubernetes_images_sync_o.Base.{
  Bool, not, false, ◌&&◌, ◌∷◌, ℕ, ◌+◌, ◌-◌, ◌*◌, ◌≡◌, ◌≢◌, ◌⊎◌, true, Option, none, some, List, ℤ,
  pos, ◌+ℤ◌, ◌≤ℤ◌,
}
use kubernetes_images_sync_o.Text.{Text}
use kubernetes_images_sync_o.Errors.{Result, ok, err, not_found}
use kubernetes_images_sync_o.Progress.{Progress, unset, pending, running, retrying}
use kubernetes_images_sync_o.Api.{Annotations, ClusterImage, ClusterImageExport, ClusterImageStatus}
use kubernetes_images_sync_o.Cluster.{Call, Key, JobObject, Pod, World, everywhere}
use kubernetes_images_sync_o.ImageController.Backup.{job_name}
use kubernetes_images_sync_o.ImageController.Aggregate.{first_restart}
use kubernetes_images_sync_o.ImageController.Methods
use kubernetes_images_sync_o.ImageController.Outcomes.{Healthy}
use kubernetes_images_sync_o.ImageController.JobEnd.{own_key, last_status, has_ended}

abbrev pub or_first : ClusterImageStatus → Option ClusterImageStatus → ClusterImageStatus
or_first first none = first
or_first first (some status) = status

-- The status of the image after some calls: the one written last, or the first one.
abbrev pub status_now : ClusterImage → List Call → ClusterImageStatus
status_now image calls = or_first image.status (last_status (own_key image) calls)

abbrev pub as_read : ClusterImage → List Call → ClusterImage
as_read image calls = record image { status = status_now image calls }

abbrev pub job_key : ClusterImage → Key
job_key image = record { namespace = image.meta.namespace; name = job_name image }

-- Every call is answered. The image has the status that was written last, and its export may change its
-- status alone. The restart counts of the pods of a job are the same whenever they are read. The job, when
-- it is looked for, has ended, with any restart counts; or it still runs and no container was
-- restarted; or it is gone, for an image that is not RUNNING. The other cases are those in which a slot is
-- lost: a restart while the job runs, and a job that is gone under a RUNNING image.
pub record Serves (world : World) (request : Key) (image : ClusterImage)
    (export : ClusterImageExport) : Type 0 where
  pub healthy : Healthy world
  pub image_read : (calls : List Call) → world.image_at calls request ≡ ok (as_read image calls)
  pub export_read :
      (calls : List Call)
      → (p : Progress) × (world.export_at calls (Methods.export_key image)
          ≡ ok (record export { progress = p }))
  pub listing :
      (calls : List Call)
      → (items : List ClusterImage) × (world.images_in calls everywhere ≡ ok items)
  pub pods : Text → Annotations → List Pod
  pub pods_read :
      (namespace : Text) (labels : Annotations) (calls : List Call)
      → world.pods_in calls namespace labels ≡ ok (pods namespace labels)
  pub job_read :
      (calls : List Call)
      → ((job : JobObject) × (world.job_at calls (job_key image) ≡ ok job) × (has_ended job ≡ true))
        ⊎ ((job : JobObject) × (world.job_at calls (job_key image) ≡ ok job)
            × (has_ended job ≡ false)
            × (first_restart (pods job.namespace job.selector) ≡ none))
        ⊎ ((world.job_at calls (job_key image) ≡ err not_found)
            × ((status_now image calls).progress ≢ running))

-- The job is there and has neither succeeded nor failed.
abbrev pub still_runs : Result JobObject → Bool
still_runs (ok job) = not (has_ended job)
still_runs (err e) = false

abbrev pub has_job : Progress → Bool
has_job running = true
has_job retrying = true
has_job _ = false

-- A reconciliation of the image finds its job still running.
abbrev pub is_busy : World → Key → ClusterImage → List Call → Bool
is_busy world request image calls =
    has_job (status_now image calls).progress
    && still_runs (
        world.job_at (Call.get_export (Methods.export_key image) ∷ Call.get_image request ∷ calls)
          (job_key image))

abbrev pub one_if : Bool → ℕ
one_if true = 1
one_if false = 0

-- The slots of jobs that an image takes.
abbrev pub slots : Progress → ℕ
slots running = 1
slots _ = 0

-- There is room for the image's job, or it has taken a slot.
abbrev pub HasRoom : ℤ → Progress → ℤ → Type 0
HasRoom limit p active = active +ℤ pos 1 ≤ℤ limit +ℤ pos (slots p)

-- The reconciliations that an image needs at most until it keeps its status, by its retry count: three
-- for each attempt that is left.
abbrev pub rounds_at : Progress → ℕ → ℕ
rounds_at unset n = 3 * (4 - n) + 3
rounds_at retrying n = 3 * (4 - n) + 3
rounds_at pending n = 3 * (4 - n) + 2
rounds_at running n = 3 * (4 - n) + 1
rounds_at _ n = 0

abbrev pub rounds : ClusterImageStatus → ℕ
rounds status = rounds_at status.progress status.retry_count
