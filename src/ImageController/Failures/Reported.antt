-- ===== src/ImageController/Failures/Reported.antt =====
-- Errors of a whole reconciliation of an image (clusterimage_controller.go).
use kubernetes_images_sync_o.Base.{
  ◌+◌, ◌≡◌, ◌≢◌, ◌⊎◌, refl, inl, inr, Bool-cases, ◌&&◌, leb_ℤ, ltb, pos, negsuc,
}
use kubernetes_images_sync_o.Errors.{Error, ok, err, not_found}
use kubernetes_images_sync_o.Progress.{
  Progress, unset, pending, running, retrying, failed, success, present, progress_eq,
}
use kubernetes_images_sync_o.Api.{ClusterImage}
use kubernetes_images_sync_o.Jobs.{create_job}
use kubernetes_images_sync_o.Cluster.{Call, Key, World, Operator, JobObject, everywhere}
use kubernetes_images_sync_o.Cluster.Op.{write, raise, ◌>>◌}
use kubernetes_images_sync_o.ImageController.Backup.{backup_job, job_name}
use kubernetes_images_sync_o.ImageController.Methods
use kubernetes_images_sync_o.Cluster.Stops.{
  AllFine, Stopped, Stops, Stops-pure, Stops-if, Stops-bind, Stops-attempt,
}
use kubernetes_images_sync_o.ImageController.Failures.{reporting}
use kubernetes_images_sync_o.ImageController.Failures.Steps.{
  write-Stops, status-Stops, add_active-Stops, cleanup-Stops, finish_running-Stops,
  export_read-Stops, list_images-Stops,
}

module _ (world : World) where
  mark_present-Stops :
      (image : ClusterImage) → Stops world (reporting world) (Methods.mark_present world image)
  unfolding Methods.mark_present
  mark_present-Stops image =
      Stops-bind world (reporting world) _ _
        (status-Stops world (Methods.set_progress present image))
        (λ _. Stops-pure world (reporting world) _)

  start-Stops :
      (image : ClusterImage) → Stops world (reporting world) (Methods.start_backup world image)
  unfolding Methods.start_backup Methods.create_backup_job
  start-Stops image =
      Stops-bind world (reporting world) _ _ (export_read-Stops world (Methods.export_key image))
        (λ export.
          Stops-bind world (reporting world) (Methods.create_backup_job world image export) _
            (Stops-bind world (reporting world) _ _
              (write-Stops world
                (Call.create_job (create_job (backup_job world.service_account image export)))
                (λ m. m) (λ s. refl))
              (λ _.
                Stops-bind world (reporting world) _ _
                  (status-Stops world (Methods.set_progress running image))
                  (λ _. Stops-pure world (reporting world) _)))
            (λ created.
              Stops-bind world (reporting world) _ _
                (status-Stops world (Methods.set_progress running created))
                (λ _.
                  Stops-bind world (reporting world) _ _ (add_active-Stops world (pos 1))
                    (λ _. Stops-pure world (reporting world) Methods.requeue))))

  handle_pending-Stops :
      (image : ClusterImage) → Stops world (reporting world) (Methods.handle_pending world image)
  unfolding Methods.handle_pending Methods.check_image_exists
  handle_pending-Stops image =
      Stops-bind world (reporting world) (Methods.check_image_exists world image) _
        (Stops-bind world (reporting world) _ _ (list_images-Stops world everywhere)
          (λ items. Stops-pure world (reporting world) _))
        (λ exists.
          Stops-if world (reporting world) exists (Methods.mark_present world image)
            (Methods.start_backup world image) (mark_present-Stops image) (start-Stops image))

  job_ended-Stops :
      (job : JobObject) (w : ClusterImage)
      → Stops world (reporting world) (
          Methods.add_active (negsuc 0)
          >> (write world (Call.update_image_status w)
              >> (Methods.cleanup_job_and_pods world job >> Methods.finish_running world job w)))
  job_ended-Stops job w =
      Stops-bind world (reporting world) _ _ (add_active-Stops world (negsuc 0)) (λ _.
        Stops-bind world (reporting world) _ _ (status-Stops world w) (λ _.
          Stops-bind world (reporting world) _ _ (cleanup-Stops world job)
            (λ _. finish_running-Stops world job w)))

  job_retried-Stops :
      (job : JobObject) (image : ClusterImage)
      → Stops world (reporting world) (Methods.job_retried world job image)
  unfolding Methods.job_retried
  job_retried-Stops job image =
      Stops-bind world (reporting world) _ _
        (status-Stops world (Methods.set_status retrying (image.status.retry_count + 1) image))
        (λ _. Stops-bind world (reporting world) _ _ (cleanup-Stops world job) (λ _.
          Stops-bind world (reporting world) _ _ (add_active-Stops world (negsuc 0))
            (λ _. Stops-pure world (reporting world) Methods.requeue)))

  job_found-Stops :
      (image : ClusterImage) (job : JobObject)
      → Stops world (reporting world) (Methods.with_job world image (ok job))
  unfolding Methods.with_job Methods.job_succeeded Methods.job_failed
  job_found-Stops image job =
      Stops-if world (reporting world) (ltb 0 job.succeeded) _ _
        (job_ended-Stops job (Methods.set_progress success image))
        (Stops-if world (reporting world) (ltb 0 job.failed) _ _
          (Stops-if world (reporting world) (ltb image.status.retry_count 3) _ _
            (job_retried-Stops job image) (job_ended-Stops job (Methods.set_progress failed image)))
          (finish_running-Stops world job image))

  job_lost-Stops :
      (image : ClusterImage) → Stops world (reporting world) (Methods.job_lost world image)
  unfolding Methods.job_lost
  job_lost-Stops image =
      Stops-bind world (reporting world) _ _
        (status-Stops world (Methods.set_progress pending image))
        (λ _. Stops-pure world (reporting world) _)

  -- The job is not there, or cannot be read.
  no_job-cases :
      (image : ClusterImage) (e : Error)
      → ((e ≡ not_found) × (Methods.with_job world image (err e) ≡ Methods.job_lost world image))
        ⊎ ((e ≢ not_found) × (Methods.with_job world image (err e) ≡ raise e))
  unfolding Methods.with_job
  no_job-cases image not_found = inl (refl, refl)
  no_job-cases image _ = inr ((λ q. cc), refl)

  handle_running-Stops :
      (image : ClusterImage) → Stops world (reporting world) (Methods.handle_running world image)
  unfolding Methods.handle_running
  handle_running-Stops image =
      let key : Key = record { namespace = image.meta.namespace; name = job_name image } in
      Stops-attempt world (reporting world) (λ s. world.job_at s.calls key) (Call.get_job key)
        (Methods.with_job world image) (λ before. tt) (λ s. refl) (job_found-Stops image)
        (λ e. elim (no_job-cases image e) [
          | inl (gone, same) ↦ inr (gone, tt, rw same (job_lost-Stops image))
          | inr (ne, same) ↦ inl (e, same, λ before h. (e, h, inl ne, inl refl))
        ])

  process-Stops :
      (p : Progress) (image : ClusterImage)
      → Stops world (reporting world) (Methods.process world p image)
  unfolding Methods.process
  process-Stops pending image = handle_pending-Stops image
  process-Stops running image = handle_running-Stops image
  process-Stops retrying image = handle_running-Stops image
  process-Stops _ image = Stops-pure world (reporting world) Methods.done

  admit-Stops : (image : ClusterImage) → Stops world (reporting world) (Methods.admit world image)
  unfolding Methods.admit
  admit-Stops image =
      Stops-bind world (reporting world) _ _
        (status-Stops world (Methods.set_progress pending image))
        (λ _. Stops-pure world (reporting world) _)

  reconcile_image-Stops :
      (image : ClusterImage) → Stops world (reporting world) (Methods.reconcile_image world image)
  unfolding Methods.reconcile_image
  reconcile_image-Stops image = record {
    at = λ s k h. elim (Bool-cases (progress_eq image.status.progress unset)) [
      | inl e ↦ rw e ((admit-Stops image).at s k h)
      | inr e ↦
          rw e
            (elim (Bool-cases (
              leb_ℤ s.max_parallel_jobs s.active_jobs
              && progress_eq image.status.progress pending)) [
                | inl full ↦ rw full (h, k)
                | inr room ↦ rw room ((process-Stops image.status.progress image).at s k h)
              ])
    ];
  }

  image_found-Stops :
      (image : ClusterImage) → Stops world (reporting world) (Methods.with_image world (ok image))
  unfolding Methods.with_image
  image_found-Stops image =
      Stops-bind world (reporting world) _ _ (export_read-Stops world (Methods.export_key image))
        (λ export.
          Stops-bind world (reporting world)
            (Methods.set_max_parallel_jobs export.spec.max_concurrent_jobs) _
            (record { at = λ s k h. (h, k) }) (λ _. reconcile_image-Stops image))

  no_image-cases :
      (e : Error)
      → ((e ≡ not_found) × Stops world (reporting world) (Methods.with_image world (err e)))
        ⊎ ((e ≢ not_found) × (Methods.with_image world (err e) ≡ raise e))
  unfolding Methods.with_image
  no_image-cases not_found = inl (refl, Stops-pure world (reporting world) Methods.done)
  no_image-cases _ = inr ((λ q. cc), refl)

-- A reconciliation that starts behind calls that are fine returns without an error exactly if all its
-- calls are fine too: each has succeeded, or it has found nothing where it looked for the image or its
-- job or deleted a job. It makes no call behind the first one that fails otherwise, and then returns
-- the error of that call, as it is or as that of deleting the job or its pods.
pub reconcile-Stopped :
    (world : World) (request : Key) (s : Operator)
    → AllFine world (reporting world) s.calls
    → Stopped world (reporting world) (Methods.reconcile world request s)
unfolding Methods.reconcile
reconcile-Stopped world request s fine =
    ((Stops-attempt world (reporting world) (λ t. world.image_at t.calls request)
        (Call.get_image request) (Methods.with_image world) (λ before. tt) (λ t. refl)
        (image_found-Stops world)
        (λ e. elim (no_image-cases world e) [
          | inl (gone, stops) ↦ inr (gone, tt, stops)
          | inr (ne, same) ↦ inl (e, same, λ before h. (e, h, inl ne, inl refl))
        ])).at
      s tt fine).0
