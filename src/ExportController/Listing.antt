-- ===== src/ExportController/Listing.antt =====
-- `listImagesInCluster` (clusterimageexport_controller.go): from the workloads of the cluster to the images.
use mathlib.Core.List.{Mem, Nodup, Perm}
use mathlib.Core.List.Perm
use mathlib.Core.Logic.{∥∥₁_map}
use kubernetes_images_sync_o.Base.{◌≡◌, ◌↔◌, refl, sym, subst, List}
use kubernetes_images_sync_o.Errors.{ok}
use kubernetes_images_sync_o.Containers.{Container, ContainersList}
use kubernetes_images_sync_o.Api.{ClusterImageExport}
use kubernetes_images_sync_o.Reference.Cache.{IsSound}
use kubernetes_images_sync_o.Cluster.{Workload, World, Operator}
use kubernetes_images_sync_o.Workers.{list_all_resources}
use kubernetes_images_sync_o.Workers.Named.{Gathered}
use kubernetes_images_sync_o.Workers.Gathered.{EachOnce}
use kubernetes_images_sync_o.Workers.Complete.{IsOrderly, list_all_resources_ok}
use kubernetes_images_sync_o.ExportController.Selection.{select_images}
use kubernetes_images_sync_o.ExportController.Selected.{IsSelected, select_images_lem}
use kubernetes_images_sync_o.ExportController.Methods
pub use kubernetes_images_sync_o.ExportController.Listing.Calls.{
  list_images-calls, list_images_sound, listed_calls,
}
pub use kubernetes_images_sync_o.ExportController.Listing.Growth.{
  AreListed, list_and_process_resources-calls,
}
use kubernetes_images_sync_o.ExportController.Listing.Growth.{bind_ok, list_all_Grows}
mod Growth
mod Calls

module _ (world : World) (once : EachOnce world) where
  -- Where every goroutine ends once and the cache is sound: if the images of the cluster can be listed, the
  -- result has each image that one of the listed workloads uses and the lists of the export want, once,
  -- and no other. The workloads are those of the four kinds, and all their image names parse.
  list_images_in_cluster_lem :
      (export : ClusterImageExport) (s : Operator) (out : ContainersList)
      → IsSound s.cache
      → (Methods.list_images_in_cluster world export s).0 ≡ ok out
      → Nodup out
        × ((workloads : List Workload) × AreListed world s.calls workloads
            × ∥ (
                (whole : ContainersList) × Gathered workloads whole
                × ((c : Container)
                    → Mem c out ↔ (Mem c whole × IsSelected world.unicode_lower export.spec c))) ∥₁)
  unfolding Methods.list_images_in_cluster
  list_images_in_cluster_lem export s out sound h =
      let (list, e, selected) = bind_ok (list_all_resources world) _ s out h in
      let (workloads, listed, grown) = list_all_Grows world once s list sound e in
      let (nodup, wanted) = select_images_lem world.unicode_lower export.spec list in
      let same : select_images world.unicode_lower export.spec list ≡ out = cc in
      (
        subst Nodup same nodup,
        (
          workloads,
          listed,
          ∥∥₁_map grown (λ (more, e, whole, gathered, p). (
            whole,
            gathered,
            λ c. (
              (λ m.
                  let (n, w) = (wanted c).0 (subst (Mem c) (sym same) m) in
                  ((Perm.mem_iff p).0 (subst (Mem c) e n), w)),
              (λ (m, w).
                  subst (Mem c) same
                    ((wanted c).1 (subst (Mem c) (sym e) ((Perm.mem_iff p).1 m), w))),
            ),
          )),
        ),
      )

-- In an orderly cluster (every goroutine ends once and none is cancelled, the lists are answered, all
-- image names parse) with a sound cache, the images of the cluster are listed without an error. The
-- result has each image that a workload of the four kinds uses and the lists of the export want, once,
-- and no other.
pub list_images_in_cluster_total :
    (world : World) (export : ClusterImageExport) (s : Operator)
    → IsOrderly world
    → IsSound s.cache
    → (out : ContainersList) × ((Methods.list_images_in_cluster world export s).0 ≡ ok out)
      × Nodup out
      × (workloads : List Workload) × AreListed world s.calls workloads
      × ∥ (
          (whole : ContainersList) × Gathered workloads whole
          × ((c : Container)
              → Mem c out ↔ (Mem c whole × IsSelected world.unicode_lower export.spec c))) ∥₁
list_images_in_cluster_total world export s orderly sound =
    let (list, e) = list_all_resources_ok world orderly s sound in
    let out = select_images world.unicode_lower export.spec list in
    let returned : (Methods.list_images_in_cluster world export s).0 ≡ ok out =
      unfold Methods.list_images_in_cluster in rw e refl in
    let (nodup, (workloads, are_listed, wanted)) =
      list_images_in_cluster_lem world orderly.once export s out sound returned in
    (out, returned, nodup, workloads, are_listed, wanted)
