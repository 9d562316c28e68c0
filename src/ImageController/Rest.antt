-- ===== src/ImageController/Rest.antt =====
-- `Reconcile` of an image for which there is nothing to do now.
use kubernetes_images_sync_o.Base.{◌≡◌, ◌⊎◌, refl, ◌≤ℤ◌, ◌∷◌, arith, if◌then◌else◌}
use kubernetes_images_sync_o.Text.{text_eq}
use kubernetes_images_sync_o.Errors.{ok}
use kubernetes_images_sync_o.Progress.{
  Progress, unset, pending, starting, running, retrying, failed, success, present, other,
  progress_eq,
}
use kubernetes_images_sync_o.Api.{ClusterImage, ClusterImageExport}
use kubernetes_images_sync_o.Cluster.{Call, Key, World, Operator}
use kubernetes_images_sync_o.ImageController.Methods

-- A status that `Reconcile` leaves alone.
abbrev pub IsAtRest : Progress → Type 0
IsAtRest success = Unit
IsAtRest failed = Unit
IsAtRest present = Unit
IsAtRest starting = Unit
IsAtRest (other t) = Unit
IsAtRest _ = ⊥

module _ (world : World) (request : Key) (image : ClusterImage) (export : ClusterImageExport)
    (s : Operator) where
  -- The two objects are read, and the limit of the export is taken over.
  abbrev pub after_reads : Operator
  after_reads = record s {
    max_parallel_jobs = export.spec.max_concurrent_jobs;
    calls = Call.get_export (Methods.export_key image) ∷ Call.get_image request ∷ s.calls;
  }

  rest_lem :
      (p : Progress)
      → image.status.progress ≡ p
      → IsAtRest p ⊎ ((p ≡ pending) × (export.spec.max_concurrent_jobs ≤ℤ s.active_jobs))
      → Methods.reconcile_image world image after_reads ≡ (
        ok (if progress_eq p pending then Methods.requeue_after 30 else Methods.done),
        after_reads,
      )
  unfolding Methods.reconcile_image Methods.process progress_eq text_eq
  rest_lem success e h = ground arith
  rest_lem failed e h = ground arith
  rest_lem present e h = ground arith
  rest_lem starting e h = ground arith
  rest_lem (other t) e h = ground arith
  rest_lem pending e h = ground arith
  rest_lem unset e h = absurd (ground arith)
  rest_lem running e h = absurd (ground arith)
  rest_lem retrying e h = absurd (ground arith)

  -- Where the image and its export can be read, the image is COMPLETED, FAILED, PRESENT, or has a status
  -- that is no life cycle's, or it is PENDING and as many jobs are active as the export allows: the
  -- reconciliation makes no other call, keeps `ActiveJobs`, and asks to be repeated in 30 seconds just
  -- for a PENDING image.
  pub reconcile_rest :
      world.image_at s.calls request ≡ ok image
      → world.export_at (Call.get_image request ∷ s.calls) (Methods.export_key image) ≡ ok export
      → IsAtRest image.status.progress
        ⊎ ((image.status.progress ≡ pending) × (export.spec.max_concurrent_jobs ≤ℤ s.active_jobs))
      → Methods.reconcile world request s ≡ (
        ok (
            if progress_eq image.status.progress pending
            then Methods.requeue_after 30
            else Methods.done),
        after_reads,
      )
  unfolding Methods.reconcile Methods.with_image
  reconcile_rest found known h = rw (found, known) (rest_lem image.status.progress refl h)
