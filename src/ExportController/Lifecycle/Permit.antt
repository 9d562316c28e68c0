-- ===== src/ExportController/Lifecycle/Permit.antt =====
-- The calls that one reconciliation of an export may make (clusterimageexport_controller.go).
use kubernetes_images_sync_o.Base.{◌≡◌, ◌⊎◌, Bool, true, false, ◌||◌}
use kubernetes_images_sync_o.Progress.{
  Progress, unset, pending, running, failed, success, progress_eq,
}
use kubernetes_images_sync_o.Api.{ClusterImageExport}
use kubernetes_images_sync_o.Containers.{Container}
use kubernetes_images_sync_o.Jobs.{create_job}
use kubernetes_images_sync_o.Cluster.{Call, World}
use kubernetes_images_sync_o.ExportController.Cleanup.{cleanup_job}
use kubernetes_images_sync_o.ExportController.Methods.{finalizer, name_hash, new_cluster_image}

-- The status of the export has settled.
abbrev pub is_settled : Progress → Bool
is_settled p = progress_eq p success || progress_eq p failed

-- The status that is written, and the one before it.
abbrev pub Written : Progress → Progress → Type 0
Written running _ = Unit
Written failed _ = Unit
Written success _ = Unit
Written pending unset = Unit
Written _ _ = ⊥

module _ (world : World) (export : ClusterImageExport) where
  -- The export as it is read, or with the finalizer.
  abbrev pub IsBase : ClusterImageExport → Type 0
  IsBase base =
      (base ≡ export)
      ⊎ (world.contains_finalizer export finalizer ≡ false)
        × (base ≡ world.add_finalizer export finalizer)

  -- The export is at work: it is not being deleted and its status has not settled.
  abbrev pub AtWork : ClusterImageExport → Type 0
  AtWork base = IsBase base × (export.meta.deleted ≡ false) × (is_settled base.progress ≡ false)

  -- What the theorem below grants, call by call: reads are free.
  abbrev pub Granted : Call → Type 0
  Granted (Call.update_export_status w) =
      (base : ClusterImageExport) × AtWork base
      × (w ≡ record base { progress = w.progress })
      × Written w.progress base.progress
  Granted (Call.create_image w) =
      (base : ClusterImageExport) × AtWork base
      × (image : Container) × (w
          ≡ new_cluster_image (name_hash world.md5_hex base.meta.name image) base image)
  Granted (Call.update_export w) =
      (export.meta.deleted ≡ false)
        × (world.contains_finalizer export finalizer ≡ false)
        × (w ≡ world.add_finalizer export finalizer)
      ⊎ (export.meta.deleted ≡ true)
        × (world.contains_finalizer export finalizer ≡ true)
        × (w ≡ world.remove_finalizer export finalizer)
  Granted (Call.create_job job) =
      (export.meta.deleted ≡ true)
      × (world.contains_finalizer export finalizer ≡ true)
      × (job ≡ create_job (cleanup_job world.service_account export))
  Granted (Call.update_image_status w) = ⊥
  Granted (Call.delete_job policy key) = ⊥
  Granted (Call.delete_pods namespace selector) = ⊥
  Granted _ = Unit
