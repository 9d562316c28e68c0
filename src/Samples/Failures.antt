-- ===== src/Samples/Failures.antt =====
-- A reconciliation of a RUNNING image whose pods cannot be listed, and one of an export in a cluster where a
-- workload uses an image name that does not parse.
use kubernetes_images_sync_o.Base.{◌≡◌, refl, [], ◌∷◌}
use kubernetes_images_sync_o.Text.{Text, codes, split, split_first, text_eq}
use kubernetes_images_sync_o.Errors
use kubernetes_images_sync_o.Errors.{err, ok, not_found}
use kubernetes_images_sync_o.Progress.{running, progress_eq}
use kubernetes_images_sync_o.Cluster.{Key, World}
use kubernetes_images_sync_o.Reference.{
  parse_reference, process_container_name, parse_parts, complete, image_and_tag,
}
use kubernetes_images_sync_o.ExportController.Failures
use kubernetes_images_sync_o.ExportController.Failures.Reported.{reconcile_export-Stopped}
use kubernetes_images_sync_o.ExportController.Methods as ExportMethods
use kubernetes_images_sync_o.ImageController.Methods
use kubernetes_images_sync_o.Cluster.Stops.{Stopped}
use kubernetes_images_sync_o.ImageController.Failures.{reporting}
use kubernetes_images_sync_o.ImageController.Failures.Reported.{reconcile-Stopped}
use kubernetes_images_sync_o.Samples.Worlds.{
  idle-IsSound, cluster, idle, image_at_status, deployment,
}

abbrev no_pods : World
no_pods = record (cluster (ok (image_at_status (codes "a") running)) []) {
  pods_in = λ calls namespace labels. err (Errors.api 3);
}

abbrev request : Key
request = record { namespace = codes "default"; name = codes "a" }

reconcile-Stopped_example :
    Stopped no_pods (reporting no_pods) (Methods.reconcile no_pods request idle)
reconcile-Stopped_example = reconcile-Stopped no_pods request idle tt

abbrev odd_name : Text
odd_name = codes "a@b@c"

abbrev odd_cluster : World
odd_cluster = record (cluster (err not_found) []) {
  workloads_in = λ calls kind. ok (record deployment { containers = odd_name ∷ [] } ∷ []);
}

odd_run :
    (ExportMethods.reconcile odd_cluster request idle).0
    ≡ err (Errors.process_name odd_name (Errors.invalid_name odd_name))
unfolding progress_eq ExportMethods.reconcile process_container_name parse_reference parse_parts
    complete image_and_tag split split_first text_eq
odd_run = refl

reconcile_export-Stopped_example :
    Stopped odd_cluster
      (Failures.reporting odd_cluster)
      (ExportMethods.reconcile odd_cluster request idle)
reconcile_export-Stopped_example = reconcile_export-Stopped odd_cluster request idle idle-IsSound tt
