-- ===== src/ImageController/Running.antt =====
-- Lemmas on `handleRunningClusterImage` (clusterimage_controller.go).
use kubernetes_images_sync_o.Base.{ℤ, ◌+◌, ◌≡◌, false, arith, ltb, negsuc, ◌+ℤ◌}
use kubernetes_images_sync_o.Errors.{Result, ok, err, not_found}
use kubernetes_images_sync_o.Progress.{pending, retrying, failed, success}
use kubernetes_images_sync_o.Api.{ClusterImage}
use kubernetes_images_sync_o.Cluster.{Operator, Call, Key, JobObject, World}
use kubernetes_images_sync_o.Cluster.Op.{pure, ◌>>◌, write, attempt, get_job}
use kubernetes_images_sync_o.Cluster.Keeps.{
  Keeps, Keeps-pure, Keeps-raise, Keeps-bind, Keeps-if, Keeps-attempt,
}
use kubernetes_images_sync_o.ImageController.Backup.{job_name}
use kubernetes_images_sync_o.ImageController.Methods
use kubernetes_images_sync_o.ImageController.Permitted.{
  IsActive, Fits, IsKept, call-Keeps, write-Keeps,
}
use kubernetes_images_sync_o.ImageController.Restarts.{
  cleanup-Keeps, finish_running-Keeps, Fits-retrying,
}

module _ (image : ClusterImage) (I : Operator → Type 0) (kept : IsKept image I) (world : World)
    (active : IsActive image.status.progress) where
  add_active-Keeps : (d : ℤ) → Keeps I (λ _. Unit {0}) (Methods.add_active d)
  add_active-Keeps d = record { at = λ s h. (kept.counted s (s.active_jobs +ℤ d) h, λ _ _. tt) }

  -- Both branches that end a job: a slot is freed, the status written, the job cleaned up.
  module _ (job : JobObject) (w : ClusterImage) (fits : (Fits image) w) where
    end_job-Keeps :
        Keeps I
          (λ _. Unit {0})
          (Methods.add_active (negsuc 0)
            >> (write world (Call.update_image_status w)
                >> (Methods.cleanup_job_and_pods world job >> Methods.finish_running world job w)))
    end_job-Keeps =
        Keeps-bind I (Methods.add_active (negsuc 0)) _ (add_active-Keeps (negsuc 0)) (λ _ _.
          Keeps-bind I (write world (Call.update_image_status w)) _
            (write-Keeps image I world kept (Call.update_image_status w) fits)
            (λ _ _.
              Keeps-bind I (Methods.cleanup_job_and_pods world job) _
                (cleanup-Keeps image I kept world active job)
                (λ _ _. finish_running-Keeps image I kept world active job w fits)))

  -- The image as it was read fits itself, and so do the statuses that the branches write.
  Fits-image : (Fits image) image
  Fits-image = ground arith

  Fits-success : (Fits image) (Methods.set_progress success image)
  Fits-success = ground arith

  Fits-pending : (Fits image) (Methods.set_progress pending image)
  Fits-pending = ground arith

  Fits-exhausted :
      ltb image.status.retry_count 3 ≡ false → (Fits image) (Methods.set_progress failed image)
  Fits-exhausted h = ground arith

  put_back-Keeps : Keeps I (λ _. Unit {0}) (Methods.job_lost world image)
  unfolding Methods.job_lost
  put_back-Keeps =
      let back = Methods.set_progress pending image in
      Keeps-bind I (write world (Call.update_image_status back)) _
        (write-Keeps image I world kept (Call.update_image_status back) Fits-pending)
        (λ _ _. Keeps-pure I _ tt)

  with_job-Keeps :
      (found : Result JobObject) → Keeps I (λ _. Unit {0}) (Methods.with_job world image found)
  unfolding Methods.with_job
  with_job-Keeps (ok job) =
      Keeps-if I (ltb 0 job.succeeded) _ _
        (λ _. end_job-Keeps job (Methods.set_progress success image) Fits-success)
        (λ _.
          Keeps-if I (ltb 0 job.failed) _ _
            (λ _.
              Keeps-if I (ltb image.status.retry_count 3) _ _
                (λ _.
                  let again = Methods.set_status retrying (image.status.retry_count + 1) image in
                  Keeps-bind I (write world (Call.update_image_status again)) _
                    (write-Keeps image I world kept (Call.update_image_status again)
                      (Fits-retrying image I kept world active image 1 Fits-image))
                    (λ _ _.
                      Keeps-bind I (Methods.cleanup_job_and_pods world job) _
                        (cleanup-Keeps image I kept world active job)
                        (λ _ _.
                          Keeps-bind I (Methods.add_active (negsuc 0)) (λ _. pure Methods.requeue)
                            (add_active-Keeps (negsuc 0))
                            (λ _ _. Keeps-pure I Methods.requeue tt))))
                (λ e. end_job-Keeps job (Methods.set_progress failed image) (Fits-exhausted e)))
            (λ _. finish_running-Keeps image I kept world active job image Fits-image))
  with_job-Keeps (err not_found) = put_back-Keeps
  with_job-Keeps (err e) = Keeps-raise I e

  pub handle_running-Keeps : Keeps I (λ _. Unit {0}) (Methods.handle_running world image)
  unfolding Methods.handle_running
  handle_running-Keeps =
      let key : Key = record { namespace = image.meta.namespace; name = job_name image } in
      Keeps-bind I (attempt (get_job world key)) _
        (Keeps-attempt I _ (call-Keeps image I kept _ (Call.get_job key) tt))
        (λ found _. with_job-Keeps found)
