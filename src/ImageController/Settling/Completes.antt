-- ===== src/ImageController/Settling/Completes.antt =====
-- A new image is exported, where nothing stands in the way.
use kubernetes_images_sync_o.Base.{
  leb_ℤ, false, ℕ, ◌<◌, ◌≡◌, refl, ap, ◌∙◌, subst, inl, inr, Option, none, List, ◌∷◌, ℤ, pos,
  negsuc, ◌+ℤ◌, ◌≤ℤ◌, arith,
}
use kubernetes_images_sync_o.Text.{Text}
use kubernetes_images_sync_o.Errors.{ok}
use kubernetes_images_sync_o.Progress.{unset, pending, running, success}
use kubernetes_images_sync_o.Api.{Annotations, ClusterImage, ClusterImageExport, ClusterImageStatus}
use kubernetes_images_sync_o.Cluster.{Call, Key, JobObject, World, Operator, everywhere}
use kubernetes_images_sync_o.ImageController.Aggregate.{first_restart}
use kubernetes_images_sync_o.ImageController.Methods
use kubernetes_images_sync_o.ImageController.Outcomes.{IsHeld}
use kubernetes_images_sync_o.ImageController.JobEnd.{has_ended, own_key, ended_status}
use kubernetes_images_sync_o.ImageController.Limit.{reconcile_all}
use kubernetes_images_sync_o.ImageController.Settling.{Serves, status_now, as_read, job_key}
use kubernetes_images_sync_o.ImageController.Settling.Steps.{
  Leaves, with_progress, from_unset, from_pending-free, from_active-ended,
}
use kubernetes_images_sync_o.ImageController.Settling.Moves.{read, served_lem}
use kubernetes_images_sync_o.ImageController.Settling.Settles.{repeated}

-- A number of active jobs that leaves room for one more is below the limit.
room-below : (limit active : ℤ) → active +ℤ pos 1 ≤ℤ limit → leb_ℤ limit active ≡ false
unfolding ◌+ℤ◌
room-below limit active h = ground arith

ended_not : (job : JobObject) → 0 < job.succeeded → has_ended job ≡ false → ⊥
ended_not job h runs = ground arith

-- A cluster that serves the image, in which no other image holds its name, its jobs succeed, and no
-- container is restarted.
pub record Succeeds (world : World) (request : Key) (image : ClusterImage)
    (export : ClusterImageExport) : Type 0 where
  pub serves : Serves world request image export
  pub free : (calls : List Call) → ¬ IsHeld (as_read image calls) (serves.listing calls).0
  pub succeeds :
      (calls : List Call) (job : JobObject)
      → world.job_at calls (job_key image) ≡ ok job
      → 0 < job.succeeded
  pub calm :
      (namespace : Text) (labels : Annotations)
      → first_restart (serves.pods namespace labels) ≡ none

module _ (world : World) (request : Key) (image : ClusterImage) (export : ClusterImageExport)
    (good : Succeeds world request image export) where
  open good use {serves, free, succeeds, calm}

  -- What a reconciliation leaves for the next one.
  abbrev Now : ClusterImageStatus → ℤ → Operator → Type 0
  Now status active s = (status_now image s.calls ≡ status) × (s.active_jobs ≡ active)

  abbrev after : Operator → Operator
  after s = (Methods.reconcile world request s).1

  Now-Leaves :
      (s : Operator) (status : ClusterImageStatus) (active : ℤ)
      → Leaves
          (own_key image)
          status
          active
          (Methods.reconcile_image world
            (as_read image s.calls)
            (read world request image export serves s)).1
      → Now status active (after s)
  unfolding Methods.reconcile
  Now-Leaves s status active (last, same) =
      rw (served_lem world request image export serves s, last) (refl, same)

  module _ (s : Operator) where
    abbrev status : ClusterImageStatus
    status = status_now image s.calls

    abbrev at : Operator
    at = read world request image export serves s

    admitted : status.progress ≡ unset → Now (with_progress pending status) s.active_jobs (after s)
    admitted e =
        Now-Leaves s (with_progress pending status) s.active_jobs
          (from_unset world (as_read image s.calls) at serves.healthy e)

    started :
        status.progress ≡ pending
        → s.active_jobs +ℤ pos 1 ≤ℤ export.spec.max_concurrent_jobs
        → Now (with_progress running status) (s.active_jobs +ℤ pos 1) (after s)
    started e room = Now-Leaves s (with_progress running status) (s.active_jobs +ℤ pos 1) (
        from_pending-free world (as_read image s.calls) at serves.healthy
          (record export {
            progress = (serves.export_read (Call.list_images everywhere ∷ at.calls)).0;
          })
          (serves.listing at.calls).0 e
          (room-below export.spec.max_concurrent_jobs s.active_jobs room)
          (serves.listing at.calls).1
          (serves.export_read (Call.list_images everywhere ∷ at.calls)).1 (free at.calls))

    completed :
        status.progress ≡ running
        → Now (with_progress success status) (s.active_jobs +ℤ negsuc 0) (after s)
    completed e = elim (serves.job_read at.calls) [
      | inr (inr (lost, ne)) ↦ absurd (ne e)
      | inr (inl (job, found, runs, no_restarts)) ↦
          absurd (ended_not job (succeeds at.calls job found) runs)
      | inl (job, found, over) ↦
          let pods = serves.pods job.namespace job.selector in
          Now-Leaves s (with_progress success status) (s.active_jobs +ℤ negsuc 0) (
            subst
              (λ st.
                Leaves (own_key image) st (s.active_jobs +ℤ negsuc 0)
                  (Methods.reconcile_image world (as_read image s.calls) at).1)
              (ended_success job (succeeds at.calls job found) (first_restart pods)
                (calm job.namespace job.selector))
              (from_active-ended world (as_read image s.calls) at serves.healthy job pods (inl e)
                found over (serves.pods_read job.namespace job.selector)))
    ]
      where
        ended_success :
            (job : JobObject)
            → 0 < job.succeeded
            → (restarts : Option ℕ) → restarts ≡ none
            → ended_status job status restarts ≡ with_progress success status
        ended_success job h restarts calm_pods = ground arith

lowered-raised : (a : ℤ) → (a +ℤ pos 1) +ℤ negsuc 0 ≡ a
unfolding ◌+ℤ◌
lowered-raised a = ground arith

-- A new image that is served (`Serves`), with a free slot, where no other image holds its name, every job that
-- is found for it has succeeded by then, and no container was restarted: after three
-- reconciliations it is COMPLETED, with its retry count kept, and the number of active jobs is again
-- the one before.
pub completes :
    (world : World) (request : Key) (image : ClusterImage) (export : ClusterImageExport)
    (s : Operator)
    → Succeeds world request image export
    → (status_now image s.calls).progress ≡ unset
    → s.active_jobs +ℤ pos 1 ≤ℤ export.spec.max_concurrent_jobs
    → let s' = reconcile_all world (repeated request 3) s in
      (status_now image s'.calls ≡ with_progress success (status_now image s.calls))
      × (s'.active_jobs ≡ s.active_jobs)
completes world request image export s good e room =
    let one = after world request image export good s in
    let two = after world request image export good one in
    let (p, a) = admitted world request image export good s e in
    let (q, b) =
      started world request image export good one (ap (λ st. st.progress) p) (rw a room) in
    let (r, c) = completed world request image export good two (ap (λ st. st.progress) q) in
    (
      r ∙ ap (with_progress success) (q ∙ ap (with_progress running) p),
      c ∙ ap (λ x. x +ℤ negsuc 0) (b ∙ ap (λ x. x +ℤ pos 1) a) ∙ lowered-raised s.active_jobs,
    )
