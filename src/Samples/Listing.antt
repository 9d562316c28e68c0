-- ===== src/Samples/Listing.antt =====
-- The listing of the images of a concrete cluster, and a reconciliation of an export in it.
use mathlib.Core.List.{Mem, Memᴰ, Nodup, Perm, not-mem-nil}
use mathlib.Core.List.Memᴰ
use mathlib.Core.Bool.{Bool-set}
use mathlib.Core.Logic.{∥∥₁_elim}
use kubernetes_images_sync_o.Base.{
  inr, false, ℕ, ◌≡◌, sym, subst, ◌↔◌, refl, List, [], ◌∷◌, map, Option, none, ◌++◌, All,
}
use kubernetes_images_sync_o.Text.{Text, codes, split, split_first, text_eq, contains, to_lower}
use kubernetes_images_sync_o.Errors.{ok, err, not_found}
use kubernetes_images_sync_o.Containers.{
  Container, ContainersList, remove_duplicates, filter_out_whole_namespaces, remove_excluded_images,
  container_eq,
}
use kubernetes_images_sync_o.Cluster.{
  Key, Workload, World, deployments, WorkloadKind, jobs, daemon_sets, cron_jobs,
}
use kubernetes_images_sync_o.Reference.{
  parse_reference, process_container_name, parse_parts, complete, image_and_tag,
}
use kubernetes_images_sync_o.Reference.Cache.{IsSound}
use kubernetes_images_sync_o.Workers.{images_of, list_and_process_resources}
use kubernetes_images_sync_o.Workers.Complete.{AllParse, IsOrderly, Parses}
use kubernetes_images_sync_o.Workers.Named.{Gathered}
use kubernetes_images_sync_o.Workers.Gathered.{list_and_process_resources_lem}
use kubernetes_images_sync_o.ExportController.Listing.{AreListed, list_images_in_cluster_total}
use kubernetes_images_sync_o.Progress.{progress_eq}
use kubernetes_images_sync_o.ExportController.Lifecycle.{is_settled}
use kubernetes_images_sync_o.ExportController.Exported.{IsExported}
use kubernetes_images_sync_o.ExportController.Exported.Reconciled.{
  finalized, opening, reconcile-IsExported,
}
use kubernetes_images_sync_o.ExportController.Methods
use kubernetes_images_sync_o.ExportController.Selected.{IsSelected}
use kubernetes_images_sync_o.Samples.Worlds.{
  sample_export, export_spec, cluster, cluster-EachOnce, idle, idle-IsSound, deployed, deployment,
}

abbrev empty_cluster : World
empty_cluster = cluster (err not_found) []

abbrev container : Container
container = record {
  image = codes "nginx";
  tag = codes "1";
  sha = [];
  full_name = codes "nginx:1";
  image_namespace = codes "default";
}

abbrev listing_run : ContainersList
listing_run =
    container
    ∷ record {
      image = codes "busybox";
      tag = codes "latest";
      sha = [];
      full_name = codes "busybox";
      image_namespace = codes "default";
    }
    ∷ []

listing_ok : (Methods.list_images_in_cluster empty_cluster sample_export idle).0 ≡ ok listing_run
unfolding Methods.list_images_in_cluster process_container_name parse_reference parse_parts complete
    image_and_tag split split_first text_eq contains to_lower remove_duplicates
    filter_out_whole_namespaces remove_excluded_images container_eq
listing_ok = refl

list_and_process_resources_example :
    IsSound (list_and_process_resources empty_cluster deployments [] idle).1.cache
    × ((out : ContainersList)
        → (list_and_process_resources empty_cluster deployments [] idle).0 ≡ ok out
        → (items : List Workload) × (empty_cluster.workloads_in [] deployments ≡ ok items)
          × (more : ContainersList) × (out ≡ [] ++ more)
          × ∥ ((whole : ContainersList) × Gathered items whole × Perm more whole) ∥₁)
list_and_process_resources_example =
    list_and_process_resources_lem empty_cluster deployments [] idle
      (cluster-EachOnce (err not_found) []) idle-IsSound

deployed-Parses :
    (image : Text) → Memᴰ image (codes "nginx:1" ∷ codes "busybox" ∷ []) → Parses image
unfolding parse_reference parse_parts complete image_and_tag split split_first text_eq
deployed-Parses image (Memᴰ.head e) = subst Parses (sym e) refl
deployed-Parses image (Memᴰ.tail m) = subst Parses (sym (Memᴰ.eq_of_singleton m)) refl

deployment-Parses :
    (w : Workload) (image : Text) → w ≡ deployment → Mem image (images_of w) → Parses image
deployment-Parses w image e m =
    ∥∥₁_elim (subst (λ (v : Workload). Mem image (images_of v)) e m) (Bool-set _ _)
      (deployed-Parses image)

deployed-AllParse : (kind : WorkloadKind) → AllParse (deployed kind)
deployed-AllParse deployments w image m n =
    ∥∥₁_elim m (Bool-set _ _) (λ d. deployment-Parses w image (Memᴰ.eq_of_singleton d) n)
deployed-AllParse jobs w image m n = absurd (not-mem-nil m)
deployed-AllParse daemon_sets w image m n = absurd (not-mem-nil m)
deployed-AllParse cron_jobs w image m n = absurd (not-mem-nil m)

undisturbed_runs :
    (items : List Workload)
    → All (λ (r : Workload × Option ℕ). r.1 ≡ none) (map (λ (w : Workload). (w, none)) items)
undisturbed_runs [] = tt
undisturbed_runs (w ∷ items) = (refl, undisturbed_runs items)

empty_cluster-IsOrderly : IsOrderly empty_cluster
empty_cluster-IsOrderly = record {
  once = cluster-EachOnce (err not_found) [];
  undisturbed = λ calls items. undisturbed_runs items;
  not_interrupted = λ calls. refl;
  lists = λ calls kind. (deployed kind, refl, deployed-AllParse kind);
}

list_images_total_example :
    (out : ContainersList) × ((Methods.list_images_in_cluster empty_cluster sample_export idle).0
      ≡ ok out)
    × Nodup out
    × (workloads : List Workload) × AreListed empty_cluster [] workloads
    × ∥ (
        (whole : ContainersList) × Gathered workloads whole
        × ((c : Container) → Mem c out ↔ (Mem c whole × IsSelected (λ c. c) export_spec c))) ∥₁
list_images_total_example =
    list_images_in_cluster_total empty_cluster sample_export idle empty_cluster-IsOrderly
      idle-IsSound

abbrev request : Key
request = record { namespace = codes "default"; name = codes "nightly" }

sample_export_unsettled : is_settled sample_export.progress ≡ false
unfolding progress_eq
sample_export_unsettled = refl

reconcile-IsExported_example :
    IsExported empty_cluster
      (finalized empty_cluster sample_export)
      (opening empty_cluster request sample_export [])
      (Methods.reconcile empty_cluster request idle)
reconcile-IsExported_example =
    reconcile-IsExported empty_cluster request sample_export idle empty_cluster-IsOrderly
      (λ calls c. refl) (λ calls scope. ([], refl)) idle-IsSound refl refl sample_export_unsettled
      (λ c calls. inr refl)
