-- ===== src/ImageController/JobEnd.antt =====
-- The status that an image is left with once its job has ended or its pods were restarted.
mod Status
pub use kubernetes_images_sync_o.ImageController.JobEnd.Status.{
  own_key, same_key, last_status, same_key_refl, last_status-own, restarted, Last, remove_all_Last,
  update_export_Last, final_Last,
}
use kubernetes_images_sync_o.Base.{
  ℕ, ◌+◌, ◌≡◌, refl, inl, inr, Bool, ◌||◌, Bool-cases, Option, none, some, List, leb, ltb, negsuc,
  ◌+ℤ◌, if◌then◌else◌,
}
use kubernetes_images_sync_o.Errors.{Result, ok}
use kubernetes_images_sync_o.Progress.{retrying, failed, success}
use kubernetes_images_sync_o.Api.{ClusterImage, ClusterImageStatus}
use kubernetes_images_sync_o.Cluster.{Call, Key, Pod, World, Operator, JobObject}
use kubernetes_images_sync_o.Cluster.Op.{Op, pure, ◌>>=◌, ◌>>◌, write, record_call}
use kubernetes_images_sync_o.Cluster.Keeps.{Keeps, Keeps-pure, Keeps-bind}
use kubernetes_images_sync_o.ImageController.Aggregate.{first_restart}
use kubernetes_images_sync_o.ImageController.Methods
use kubernetes_images_sync_o.ImageController.Backup.{job_name}
use kubernetes_images_sync_o.ImageController.Slots.{end_job, end_job-active, finish_running-active}
use kubernetes_images_sync_o.ImageController.Outcomes.{Healthy}

module _ (world : World) (healthy : Healthy world) where
  abbrev finish_with : ClusterImage → Op Methods.Outcome
  finish_with w =
      write world (Call.update_image_status w) >> Methods.update_cluster_image_export_status world w

  -- The write that sets the status, and what follows.
  set_status_Last :
      (w : ClusterImage) {B : Type 0} (k : Op B)
      → Keeps (Last world (own_key w) w.status) (λ _. Unit {0}) k
      → (s : Operator)
      → last_status (own_key w) ((write world (Call.update_image_status w) >> k) s).1.calls
        ≡ some w.status
  set_status_Last w k kept s = rw healthy (
      (kept.at (record_call (Call.update_image_status w) s)
        (last_status-own (own_key w) w s.calls refl)).0)

  after_restarts :
      (w : ClusterImage) (o : Option ℕ) (s : Operator)
      → last_status (own_key w) ((Methods.record_restarts world w o >>= finish_with) s).1.calls
        ≡ some (restarted w.status o)
  unfolding Methods.record_restarts
  after_restarts w none s =
      set_status_Last w (Methods.update_cluster_image_export_status world w)
        (update_export_Last world (own_key w) w.status w) s
  after_restarts w (some n) s =
      let count = w.status.retry_count + n in
      let out = Methods.set_status failed count w in
      let again = Methods.set_status retrying count w in
      elim (Bool-cases (leb 3 count)) [
        | inl e ↦
            rw (e, healthy)
              ((Keeps-bind (Last world (own_key w) out.status)
                  (Methods.remove_all_jobs_and_containers world w.meta.namespace >> pure out)
                  finish_with
                  (Keeps-bind (Last world (own_key w) out.status)
                    (Methods.remove_all_jobs_and_containers world w.meta.namespace) (λ _. pure out)
                    (remove_all_Last world (own_key w) out.status w.meta.namespace)
                    (λ _ _.
                      Keeps-pure (Last world (own_key w) out.status)
                        {R = λ r. (r.status ≡ out.status) × (own_key r ≡ own_key w)} out
                        (refl, refl)))
                  (λ r (same, own). final_Last world (own_key w) out.status r same own)).at
                (record_call (Call.update_image_status out) s)
                (last_status-own (own_key w) out s.calls refl)).0
        | inr e ↦
            rw (e, healthy)
              ((final_Last world (own_key w) again.status again refl refl).at
                (record_call (Call.update_image_status again) s)
                (last_status-own (own_key w) again s.calls refl)).0
      ]

  module _ (job : JobObject) (pods : List Pod)
      (listing : (calls : List Call)
        → world.pods_in calls job.namespace job.selector ≡ ok pods) where
    finish_running_last :
        (w : ClusterImage) (s : Operator)
        → last_status (own_key w) (Methods.finish_running world job w s).1.calls
          ≡ some (restarted w.status (first_restart pods))
    unfolding Methods.finish_running Methods.handle_job_restarts
    finish_running_last w s = rw (listing s.calls) (
        after_restarts w (first_restart pods)
          (record_call (Call.list_pods job.namespace job.selector) s))

-- The status that the branches of `handleRunningClusterImage` end with: COMPLETED for a job that
-- succeeded; for one that failed RETRYING with one retry more, or FAILED at 3; else the one read. All but
-- that of a retry are then moved by a restart count.
abbrev pub ended_status : JobObject → ClusterImageStatus → Option ℕ → ClusterImageStatus
ended_status job status restarts =
    if ltb 0 job.succeeded
    then restarted (record status { progress = success }) restarts
    else if ltb 0 job.failed
    then (if ltb status.retry_count 3
        then record { progress = retrying; retry_count = status.retry_count + 1 }
        else restarted (record status { progress = failed }) restarts)
    else restarted status restarts

abbrev pub has_ended : JobObject → Bool
has_ended job = ltb 0 job.succeeded || ltb 0 job.failed

abbrev pub Ends :
    ClusterImage → JobObject → Option ℕ → Operator → Result Methods.Outcome × Operator → Type 0
Ends image job restarts s (result, s') =
    (last_status (own_key image) s'.calls ≡ some (ended_status job image.status restarts))
    × (s'.active_jobs ≡ (if has_ended job then s.active_jobs +ℤ negsuc 0 else s.active_jobs))

module _ (world : World) (healthy : Healthy world) (job : JobObject) (pods : List Pod)
    (listing : (calls : List Call) → world.pods_in calls job.namespace job.selector ≡ ok pods) where
  end_job_last :
      (w : ClusterImage) (s : Operator)
      → last_status (own_key w) (end_job world job w s s).1.calls
        ≡ some (restarted w.status (first_restart pods))
  unfolding Methods.cleanup_job_and_pods
  end_job_last w s = simp healthy (finish_running_last world healthy job pods listing w _)

  job_retried_last :
      (image : ClusterImage) (s : Operator)
      → (last_status (own_key image) (Methods.job_retried world job image s).1.calls
          ≡ some (record { progress = retrying; retry_count = image.status.retry_count + 1 }))
        × ((Methods.job_retried world job image s).1.active_jobs ≡ s.active_jobs +ℤ negsuc 0)
  unfolding Methods.job_retried Methods.cleanup_job_and_pods
  job_retried_last image s =
      let again = Methods.set_status retrying (image.status.retry_count + 1) image in
      simp healthy (last_status-own (own_key image) again s.calls refl, refl)

  with_job-Ends :
      (image : ClusterImage) (s : Operator)
      → Ends image job (first_restart pods) s (Methods.with_job world image (ok job) s)
  unfolding Methods.with_job
  with_job-Ends image s = elim (Bool-cases (ltb 0 job.succeeded)) [
    | inl e ↦
        let w = Methods.set_progress success image in
        rw e (end_job_last w s, end_job-active world job w s)
    | inr e ↦ rw e (elim (Bool-cases (ltb 0 job.failed)) [
      | inl f ↦ rw f (elim (Bool-cases (ltb image.status.retry_count 3)) [
        | inl g ↦ rw g (job_retried_last image s)
        | inr g ↦
            let w = Methods.set_progress failed image in
            rw g (end_job_last w s, end_job-active world job w s)
      ])
      | inr f ↦ rw f (
        finish_running_last world healthy job pods listing image s,
        finish_running-active world job image s,
      )
    ])
  ]

-- Where the API server takes every write and the job of the image and its pods can be read, the status
-- written last for the image is the one that the job's result and the restart counts of its pods ask for, and
-- `ActiveJobs` is lowered by one exactly if the job has succeeded or failed.
pub handle_running_lem :
    (world : World) (image : ClusterImage) (s : Operator) (job : JobObject) (pods : List Pod)
    → Healthy world
    → world.job_at s.calls (record { namespace = image.meta.namespace; name = job_name image })
      ≡ ok job
    → ((calls : List Call) → world.pods_in calls job.namespace job.selector ≡ ok pods)
    → Ends image job (first_restart pods) s (Methods.handle_running world image s)
unfolding Methods.handle_running
handle_running_lem world image s job pods healthy found listing =
    let key : Key = record { namespace = image.meta.namespace; name = job_name image } in
    rw found (with_job-Ends world healthy job pods listing image (record_call (Call.get_job key) s))
