-- ===== src/Samples/Images.antt =====
-- The reconciler of an image in a concrete cluster.
use kubernetes_images_sync_o.Base.{
  ◌≡◌, refl, inl, ap, subst, ℤ, ◌≤ℤ◌, arith, [], ◌∷◌, All, any, pos, if◌then◌else◌, ◌⊎◌, ◌≢◌,
}
use kubernetes_images_sync_o.Text.{codes}
use kubernetes_images_sync_o.Errors.{Result, ok, err}
use kubernetes_images_sync_o.Progress.{progress_eq, pending, running, failed, success, Progress}
use kubernetes_images_sync_o.Api.{ClusterImage, ClusterImageExport}
use kubernetes_images_sync_o.Cluster.{Call, Key, World}
use kubernetes_images_sync_o.ImageController.Aggregate.{first_restart, summary, new_status}
use kubernetes_images_sync_o.ImageController.Aggregation.{
  is_failed, is_active, is_pending, new_status_lem,
}
use kubernetes_images_sync_o.ImageController.JobEnd.{Ends, handle_running_lem}
use kubernetes_images_sync_o.ImageController.Lifecycle.{reconcile-Permitted}
use kubernetes_images_sync_o.ImageController.Permitted.{Permitted}
use kubernetes_images_sync_o.ImageController.Limit.{
  LimitsAtMost, IsWithin, reconcile_all, reconcile_all-IsWithin,
}
use kubernetes_images_sync_o.ImageController.Methods
use kubernetes_images_sync_o.Cluster.Op.{record_call}
use kubernetes_images_sync_o.ImageController.Outcomes.{
  after_export_reads, update_cluster_image_export_status_lem, IsHeld,
}
use kubernetes_images_sync_o.ImageController.Rest.{after_reads, reconcile_rest}
use kubernetes_images_sync_o.ImageController.Slots.{SlotChange, reconcile-SlotChange}
use kubernetes_images_sync_o.Samples.Worlds.{
  image_at_status, sample_export, done_job, calm_pod, cluster, idle,
}
use mathlib.Core.List.Memᴰ
use mathlib.Core.Logic.{∥∥₁_elim}
use mathlib.Core.HLevel.{⊥_prop}

abbrev waiting_image : ClusterImage
waiting_image = image_at_status (codes "a") pending

abbrev running_image : ClusterImage
running_image = image_at_status (codes "a") running

abbrev stored_image : ClusterImage
stored_image = image_at_status (codes "b") success

abbrev request : Key
request = record { namespace = codes "default"; name = codes "a" }

abbrev waiting_cluster : World
waiting_cluster = cluster (ok waiting_image) (waiting_image ∷ [])

abbrev running_cluster : World
running_cluster = cluster (ok running_image) (running_image ∷ [])

abbrev stored_cluster : World
stored_cluster = cluster (ok waiting_image) (stored_image ∷ [])

reconcile-Permitted_example :
    All (Permitted running_image) (Methods.reconcile running_cluster request idle).1.calls
reconcile-Permitted_example = reconcile-Permitted running_cluster request running_image idle refl tt

two_at_most : LimitsAtMost (pos 2) waiting_cluster
two_at_most calls key export e = subst (λ (m : ℤ). m ≤ℤ pos 2) (ap max_of e) (ground arith)
  where
    max_of : Result ClusterImageExport → ℤ
    max_of (ok x) = x.spec.max_concurrent_jobs
    max_of (err x) = pos 0

idle-IsWithin : IsWithin (pos 2) idle
idle-IsWithin = ground arith

reconcile_all-IsWithin_example :
    IsWithin (pos 2) (reconcile_all waiting_cluster (request ∷ request ∷ []) idle)
reconcile_all-IsWithin_example =
    reconcile_all-IsWithin waiting_cluster (pos 2) (request ∷ request ∷ []) idle two_at_most
      idle-IsWithin

reconcile-SlotChange_example :
    SlotChange waiting_cluster request idle (Methods.reconcile waiting_cluster request idle).1
reconcile-SlotChange_example = reconcile-SlotChange waiting_cluster request idle

abbrev settled_cluster : World
settled_cluster = cluster (ok stored_image) (stored_image ∷ [])

reconcile_rest_example : Methods.reconcile settled_cluster request idle ≡ (
  ok (if progress_eq success pending then Methods.requeue_after 30 else Methods.done),
  after_reads settled_cluster request stored_image sample_export idle,
)
reconcile_rest_example =
    reconcile_rest settled_cluster request stored_image sample_export idle refl refl (inl tt)

handle_running_example :
    Ends running_image done_job
      (first_restart (calm_pod ∷ []))
      idle
      (Methods.handle_running running_cluster running_image idle)
handle_running_example =
    handle_running_lem running_cluster running_image idle done_job (calm_pod ∷ []) (λ calls c. refl)
      refl (λ calls. refl)

free : ¬ IsHeld waiting_image (waiting_image ∷ [])
free h = ∥∥₁_elim h ⊥_prop (λ (ci, m, e, other, t).
    ∥∥₁_elim m ⊥_prop
      (λ d. other (ap (λ (i : ClusterImage). i.meta.name) (Memᴰ.eq_of_singleton d))))

new_status_example : new_status (summary (running_image ∷ stored_image ∷ [])) ≡ (
    if any is_failed (running_image ∷ stored_image ∷ [])
    then failed
    else if any is_active (running_image ∷ stored_image ∷ [])
    then running
    else if any is_pending (running_image ∷ stored_image ∷ [])
    then pending
    else success)
new_status_example = new_status_lem (running_image ∷ stored_image ∷ [])

abbrev whole_status : Progress
whole_status = new_status (summary (waiting_image ∷ []))

update_cluster_image_export_status_example :
    ((whole_status ≡ sample_export.progress)
      × (Methods.update_cluster_image_export_status waiting_cluster waiting_image idle ≡ (
        ok (if progress_eq whole_status success then Methods.done else Methods.requeue),
        after_export_reads waiting_cluster waiting_image idle sample_export (waiting_image ∷ []),
      )))
    ⊎ ((whole_status ≢ sample_export.progress)
        × (Methods.update_cluster_image_export_status waiting_cluster waiting_image idle ≡ (
          ok (if progress_eq whole_status success then Methods.done else Methods.requeue),
          record_call
              (Call.update_export_status (record sample_export { progress = whole_status }))
              (after_export_reads waiting_cluster waiting_image idle sample_export
                (waiting_image ∷ [])),
        )))
update_cluster_image_export_status_example =
    update_cluster_image_export_status_lem waiting_cluster waiting_image idle sample_export
      (waiting_image ∷ []) (λ calls c. refl) refl refl
