-- ===== src/ImageController/Settling/Steps.antt =====
-- One reconciliation of an image that is served, by its status.
use kubernetes_images_sync_o.Base.{
  ap, ◌∙◌, Option, none, ℕ, ◌≡◌, ◌⊎◌, refl, false, true, some, List, ◌∷◌, ℤ, pos, negsuc, ◌+ℤ◌,
  leb_ℤ, arith,
}
use kubernetes_images_sync_o.Text.{text_eq}
use kubernetes_images_sync_o.Errors.{ok, err, not_found}
use kubernetes_images_sync_o.Progress.{
  Progress, unset, pending, running, retrying, present, progress_eq,
}
use kubernetes_images_sync_o.Api.{ClusterImage, ClusterImageExport, ClusterImageStatus}
use kubernetes_images_sync_o.Cluster.{Key, Call, JobObject, Pod, World, Operator, everywhere}
use kubernetes_images_sync_o.ImageController.Aggregate.{first_restart}
use kubernetes_images_sync_o.ImageController.Methods
use kubernetes_images_sync_o.ImageController.Outcomes.{
  Healthy, IsHeld, handle_pending-held, handle_pending-free,
}
use kubernetes_images_sync_o.ImageController.JobEnd.{
  own_key, last_status, same_key_refl, ended_status, has_ended, handle_running_lem,
}
use kubernetes_images_sync_o.ImageController.Settling.{job_key}

-- The status written last for an image, and the number of active jobs, of a state.
abbrev pub Leaves : Key → ClusterImageStatus → ℤ → Operator → Type 0
Leaves key status active s = (last_status key s.calls ≡ some status) × (s.active_jobs ≡ active)

abbrev pub with_progress : Progress → ClusterImageStatus → ClusterImageStatus
with_progress p status = record status { progress = p }

unended_status :
    (job : JobObject) (status : ClusterImageStatus) (restarts : Option ℕ)
    → has_ended job ≡ false
    → restarts ≡ none
    → ended_status job status restarts ≡ status
unended_status job status none runs calm = ground arith
unended_status job status (some n) runs calm = absurd (cc)

module _ (world : World) (image : ClusterImage) (s : Operator) (healthy : Healthy world) where
  pub from_unset :
      image.status.progress ≡ unset
      → Leaves
          (own_key image)
          (with_progress pending image.status)
          s.active_jobs
          (Methods.reconcile_image world image s).1
  unfolding Methods.reconcile_image Methods.admit progress_eq text_eq
  from_unset e = rw (e, healthy) (rw (same_key_refl (own_key image)) (refl, refl))

  pending_process :
      image.status.progress ≡ pending
      → leb_ℤ s.max_parallel_jobs s.active_jobs ≡ false
      → Methods.reconcile_image world image s ≡ Methods.handle_pending world image s
  unfolding Methods.reconcile_image Methods.process progress_eq text_eq
  pending_process e room = rw (e, room) refl

  pub from_pending-free :
      (export : ClusterImageExport) (items : List ClusterImage)
      → image.status.progress ≡ pending
      → leb_ℤ s.max_parallel_jobs s.active_jobs ≡ false
      → world.images_in s.calls everywhere ≡ ok items
      → world.export_at (Call.list_images everywhere ∷ s.calls) (Methods.export_key image)
        ≡ ok export
      → ¬ IsHeld image items
      → Leaves
          (own_key image)
          (with_progress running image.status)
          (s.active_jobs +ℤ pos 1)
          (Methods.reconcile_image world image s).1
  from_pending-free export items e room listing known free =
      rw
        (
          pending_process e room,
          handle_pending-free world image s items export healthy e listing known free,
        )
        (rw (same_key_refl (own_key image)) (refl, refl))

  pub from_pending-held :
      (items : List ClusterImage)
      → image.status.progress ≡ pending
      → leb_ℤ s.max_parallel_jobs s.active_jobs ≡ false
      → world.images_in s.calls everywhere ≡ ok items
      → IsHeld image items
      → Leaves
          (own_key image)
          (with_progress present image.status)
          s.active_jobs
          (Methods.reconcile_image world image s).1
  from_pending-held items e room listing held =
      rw (pending_process e room, handle_pending-held world image s items healthy listing held)
        (rw (same_key_refl (own_key image)) (refl, refl))

  active_process :
      (image.status.progress ≡ running) ⊎ (image.status.progress ≡ retrying)
      → Methods.reconcile_image world image s ≡ Methods.handle_running world image s
  unfolding Methods.reconcile_image Methods.process progress_eq text_eq
  active_process active = ground arith

  pub from_active-ended :
      (job : JobObject) (pods : List Pod)
      → (image.status.progress ≡ running) ⊎ (image.status.progress ≡ retrying)
      → world.job_at s.calls (job_key image) ≡ ok job
      → has_ended job ≡ true
      → ((calls : List Call) → world.pods_in calls job.namespace job.selector ≡ ok pods)
      → Leaves
          (own_key image)
          (ended_status job image.status (first_restart pods))
          (s.active_jobs +ℤ negsuc 0)
          (Methods.reconcile_image world image s).1
  from_active-ended job pods active found over listing =
      let (last, active_after) = handle_running_lem world image s job pods healthy found listing in
      rw (active_process active) (last, rw (active_after, over) refl)

  -- The job still runs and no container was restarted.
  pub from_active-busy :
      (job : JobObject) (pods : List Pod)
      → (image.status.progress ≡ running) ⊎ (image.status.progress ≡ retrying)
      → world.job_at s.calls (job_key image) ≡ ok job
      → has_ended job ≡ false
      → first_restart pods ≡ none
      → ((calls : List Call) → world.pods_in calls job.namespace job.selector ≡ ok pods)
      → Leaves (own_key image) image.status s.active_jobs (Methods.reconcile_image world image s).1
  from_active-busy job pods active found runs calm listing =
      let (last, active_after) = handle_running_lem world image s job pods healthy found listing in
      rw (active_process active) (
        last ∙ ap some (unended_status job image.status (first_restart pods) runs calm),
        rw (active_after, runs) refl,
      )

  pub from_active-lost :
      (image.status.progress ≡ running) ⊎ (image.status.progress ≡ retrying)
      → world.job_at s.calls (job_key image) ≡ err not_found
      → Leaves
          (own_key image)
          (with_progress pending image.status)
          s.active_jobs
          (Methods.reconcile_image world image s).1
  unfolding Methods.handle_running Methods.with_job Methods.job_lost
  from_active-lost active lost =
      rw (active_process active, lost, healthy) (rw (same_key_refl (own_key image)) (refl, refl))
