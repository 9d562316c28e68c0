-- ===== src/ExportController/Selection.antt =====
-- The filters of `listImagesInCluster` (clusterimageexport_controller.go), in its order.
use kubernetes_images_sync_o.Base.{ℕ, List, [], ◌∷◌}
use kubernetes_images_sync_o.Text.{Text}
use kubernetes_images_sync_o.Containers.{
  ContainersList, remove_duplicates, remove_excluded_images, include_only_images,
  filter_only_from_namespaces, filter_out_whole_namespaces,
}
use kubernetes_images_sync_o.Api.{ClusterImageExportSpec}

-- `if len(patterns) > 0 { list = filter(list, patterns) }`
abbrev pub when_given :
    List Text → (ContainersList → List Text → ContainersList) → ContainersList → ContainersList
when_given [] filter list = list
when_given (p ∷ patterns) filter list = filter list (p ∷ patterns)

unfoldable pub select_images : (ℕ → ℕ) → ClusterImageExportSpec → ContainersList → ContainersList
select_images unicode_lower spec list =
    let included = when_given spec.includes (include_only_images unicode_lower) list in
    let not_excluded = when_given spec.excludes (remove_excluded_images unicode_lower) included in
    let in_namespaces = when_given spec.namespaces filter_only_from_namespaces not_excluded in
    let outside = when_given spec.excluded_namespaces filter_out_whole_namespaces in_namespaces in
    remove_duplicates outside
