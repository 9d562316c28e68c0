-- ===== src/Samples/Settling.antt =====
-- An image that is reconciled again and again: its job succeeds, or it still runs at first and fails each time.
use kubernetes_images_sync_o.Base.{
  ◌⊎◌, Bool, true, false, none, List, inr, if◌then◌else◌, ◌≡◌, refl, pos, ◌+ℤ◌, [], ◌∷◌, inl, arith,
  any,
}
use kubernetes_images_sync_o.Text.{text_eq, codes}
use kubernetes_images_sync_o.Errors.{ok, err, not_found}
use kubernetes_images_sync_o.Progress.{progress_eq, unset, success}
use kubernetes_images_sync_o.Api.{ClusterImage}
use kubernetes_images_sync_o.Cluster.{Call, Key, JobObject, World}
use kubernetes_images_sync_o.ImageController.Aggregate.{
  first_restart, summary, new_status, first_positive, or_else,
}
use kubernetes_images_sync_o.ImageController.Methods
use kubernetes_images_sync_o.ImageController.Outcomes.{IsHeld, any-held_by_iff}
use kubernetes_images_sync_o.ImageController.Limit.{reconcile_all}
use kubernetes_images_sync_o.ImageController.JobEnd.{has_ended}
use kubernetes_images_sync_o.ImageController.Settling.{Serves, as_read, status_now}
use kubernetes_images_sync_o.ImageController.Settling.Steps.{with_progress}
use kubernetes_images_sync_o.ImageController.Settling.Settles.{
  busy_rounds, IsSettled, repeated, settles,
}
use kubernetes_images_sync_o.ImageController.Settling.Completes.{Succeeds, completes}
use kubernetes_images_sync_o.Samples.Worlds.{
  export_progress, cluster, idle, sample_export, image_at_status, done_job, calm_pod,
}

abbrev new_image : ClusterImage
new_image = image_at_status (codes "a") unset

abbrev request : Key
request = record { namespace = codes "default"; name = codes "a" }

abbrev failed_job : JobObject
failed_job = record done_job { succeeded = 0; failed = 1 }

abbrev busy_job : JobObject
busy_job = record done_job { succeeded = 0 }

abbrev was_seen : List Call → Bool
was_seen [] = false
was_seen (Call.get_job key ∷ calls) = true
was_seen (_ ∷ calls) = was_seen calls

-- The image and its export are read as they were written, and the image's job is found.
abbrev serving : JobObject → World
serving job = record (cluster (err not_found) []) {
  image_at = λ calls key. ok (as_read new_image calls);
  export_at = λ calls key. ok (record sample_export { progress = export_progress calls });
  job_at = λ calls key. ok job;
}

-- The job still runs when it is looked for the first time, and has failed after that.
abbrev slow : World
slow = record (serving failed_job) {
  job_at = λ calls key. ok (if was_seen calls then failed_job else busy_job);
}

seen_or_not :
    (seen : Bool) (calm : first_restart (calm_pod ∷ []) ≡ none)
    → let found = if seen then failed_job else busy_job in
      ((job : JobObject) × (ok found ≡ ok job) × (has_ended job ≡ true))
      ⊎ ((job : JobObject) × (ok found ≡ ok job)
          × (has_ended job ≡ false)
          × (first_restart (calm_pod ∷ []) ≡ none))
seen_or_not true calm = inl (failed_job, refl, refl)
seen_or_not false calm = inr (busy_job, refl, refl, calm)

slow-Serves : Serves slow request new_image sample_export
slow-Serves = record {
  healthy = λ calls c. refl;
  image_read = λ calls. refl;
  export_read = λ calls. (export_progress calls, refl);
  listing = λ calls. ([], refl);
  pods = λ namespace labels. calm_pod ∷ [];
  pods_read = λ namespace labels calls. refl;
  job_read = λ calls. elim (seen_or_not (was_seen calls) (unfold first_restart in refl)) [
    | inl ended ↦ inl ended
    | inr runs ↦ inr (inl runs)
  ];
}

one_busy : busy_rounds slow request new_image 16 idle ≡ 1
unfolding ◌+ℤ◌ Methods.reconcile progress_eq text_eq any first_restart summary new_status
    first_positive or_else
one_busy = refl

settles_example : IsSettled new_image (pos 2) (reconcile_all slow (repeated request 16) idle)
unfolding ◌+ℤ◌
settles_example =
    settles slow request new_image sample_export idle 16 slow-Serves (omega arith)
      (omega (arith, one_busy))

succeeding-Serves : Serves (serving done_job) request new_image sample_export
succeeding-Serves = record {
  healthy = λ calls c. refl;
  image_read = λ calls. refl;
  export_read = λ calls. (export_progress calls, refl);
  listing = λ calls. ([], refl);
  pods = λ namespace labels. calm_pod ∷ [];
  pods_read = λ namespace labels calls. refl;
  job_read = λ calls. inl (done_job, refl, refl);
}

nobody_holds : (image : ClusterImage) → ¬ IsHeld image []
unfolding any
nobody_holds image h = let held = (any-held_by_iff image []).1 h in cc

succeeding-Succeeds : Succeeds (serving done_job) request new_image sample_export
unfolding succeeding-Serves first_restart
succeeding-Succeeds = record {
  serves = succeeding-Serves;
  free = λ calls. nobody_holds (as_read new_image calls);
  succeeds = λ calls job found. ground arith;
  calm = λ namespace labels. refl;
}

completes_example :
    (status_now new_image (reconcile_all (serving done_job) (repeated request 3) idle).calls
      ≡ with_progress success (status_now new_image idle.calls))
    × ((reconcile_all (serving done_job) (repeated request 3) idle).active_jobs ≡ idle.active_jobs)
unfolding ◌+ℤ◌
completes_example =
    completes (serving done_job) request new_image sample_export idle succeeding-Succeeds refl
      (omega arith)
