-- ===== src/Samples/Exports.antt =====
-- The reconciler of an export in a concrete cluster.
use mathlib.Core.List.{Mem, Nodup}
use kubernetes_images_sync_o.Base.{List, ◌≡◌, ◌≢◌, ◌↔◌, ◌⊎◌, refl, inr, [], ◌∷◌, All}
use kubernetes_images_sync_o.Text.{codes}
use kubernetes_images_sync_o.Errors.{ok, err, not_found}
use kubernetes_images_sync_o.Progress.{success, retrying}
use kubernetes_images_sync_o.Api.{ClusterImage}
use kubernetes_images_sync_o.Containers.{Container}
use kubernetes_images_sync_o.Cluster.{Key, World}
use kubernetes_images_sync_o.ImageController.Aggregate.{summary}
use kubernetes_images_sync_o.ImageController.Backup.{export_commands}
use kubernetes_images_sync_o.ExportController.Cleanup.{
  Round, cleanup_commands, read, returned, waiting, wait_for_job_completion_and_delete,
}
use kubernetes_images_sync_o.ExportController.Completion.{all_complete-summary}
use kubernetes_images_sync_o.ExportController.Creation.{Creates, create_images_lem}
use kubernetes_images_sync_o.ExportController.Lifecycle.{Granted, reconcile-Granted}
use kubernetes_images_sync_o.ExportController.Methods
use kubernetes_images_sync_o.ExportController.Methods.{all_complete, name_hash, new_cluster_image}
use kubernetes_images_sync_o.ExportController.Naming.{
  IsTarget, name_hash-collision, storage_commands_iff,
}
use kubernetes_images_sync_o.ExportController.Selected.{IsSelected, select_images_lem}
use kubernetes_images_sync_o.ExportController.Selection.{select_images}
use kubernetes_images_sync_o.ExportController.Waiting.{EndsAt, IsUnfinished, outcome, wait_ends}
use kubernetes_images_sync_o.Samples.Worlds.{
  image_at_status, sample_export, export_spec, done_job, cluster, idle,
}

abbrev empty_cluster : World
empty_cluster = cluster (err not_found) []

abbrev stored_image : ClusterImage
stored_image = image_at_status (codes "a") success

abbrev retried_image : ClusterImage
retried_image = image_at_status (codes "b") retrying

abbrev request : Key
request = record { namespace = codes "default"; name = codes "nightly" }

abbrev container : Container
container = record {
  image = codes "nginx";
  tag = codes "1";
  sha = [];
  full_name = codes "nginx:1";
  image_namespace = codes "default";
}

reconcile-Granted_example :
    All (Granted empty_cluster sample_export) (Methods.reconcile empty_cluster request idle).1.calls
reconcile-Granted_example = reconcile-Granted empty_cluster request sample_export idle refl tt

create_images_example :
    Creates empty_cluster sample_export
      (container ∷ [])
      (Methods.create_images empty_cluster sample_export (container ∷ []) idle)
create_images_example =
    create_images_lem empty_cluster (λ calls c. refl) sample_export (container ∷ []) idle
      ((λ calls. inr refl), tt)

all_complete_example :
    all_complete (stored_image ∷ retried_image ∷ [])
    ≡ (summary (stored_image ∷ retried_image ∷ [])).all_completed
all_complete_example = all_complete-summary (stored_image ∷ retried_image ∷ []) (tt, (tt, tt))

select_images_example :
    Nodup (select_images (λ c. c) export_spec (container ∷ []))
    × ((c : Container)
        → Mem c (select_images (λ c. c) export_spec (container ∷ []))
          ↔ (Mem c (container ∷ []) × IsSelected (λ c. c) export_spec c))
select_images_example = select_images_lem (λ c. c) export_spec (container ∷ [])

abbrev busy_round : Round
busy_round = read (record done_job { succeeded = 0 }) (ok tt)

abbrev two_rounds : List Round
two_rounds = busy_round ∷ read done_job (ok tt) ∷ []

wait_ends_example :
    (All IsUnfinished two_rounds
      × (wait_for_job_completion_and_delete (codes "cleanup") two_rounds ≡ waiting))
    ⊎ ((last : Round) × EndsAt two_rounds last
        × (wait_for_job_completion_and_delete (codes "cleanup") two_rounds
            ≡ outcome (codes "cleanup") last))
wait_ends_example = wait_ends (codes "cleanup") two_rounds

wait_run : wait_for_job_completion_and_delete (codes "cleanup") two_rounds ≡ returned (ok tt) 1
unfolding wait_for_job_completion_and_delete
wait_run = refl

name_hash-collision_example :
    (record container { image = codes "nginx1"; tag = codes ":2" }
      ≢ record container { image = codes "nginx"; tag = codes "1:2" })
    × (name_hash
          (λ t. t)
          (codes "n")
          (record container { image = codes "nginx1"; tag = codes ":2" })
        ≡ name_hash
            (λ t. t)
            (codes "n")
            (record container { image = codes "nginx"; tag = codes "1:2" }))
name_hash-collision_example =
    name_hash-collision (λ t. t) (codes "n") container (codes "nginx") 49 [] (codes ":2")

storage_commands_example :
    ((export_commands
          (new_cluster_image (codes "a") sample_export container)
          sample_export
          (codes "nginx-1")
        ≢ [])
      ↔ IsTarget (codes "S3"))
    × ((cleanup_commands sample_export ≢ []) ↔ IsTarget (codes "S3"))
storage_commands_example =
    storage_commands_iff sample_export container (codes "a") (codes "nginx-1")
