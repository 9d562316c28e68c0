-- ===== src/ExportController/Selected.antt =====
-- Which of the images of the cluster an export takes.
use mathlib.Core.List.{Mem, Nodup, not-mem-nil}
use mathlib.Core.Logic.{∥∥₁_elim}
use mathlib.Core.HLevel.{⊥_prop}
use kubernetes_images_sync_o.Base.{ℕ, ◌≢◌, ◌↔◌, refl, List, [], ◌∷◌}
use kubernetes_images_sync_o.Text.{Text}
use kubernetes_images_sync_o.Containers.{
  Container, ContainersList, remove_excluded_images, include_only_images,
  filter_only_from_namespaces, filter_out_whole_namespaces,
}
use kubernetes_images_sync_o.Containers.Dedup.{remove_duplicates_lem}
use kubernetes_images_sync_o.Containers.Filters.{
  Matches, mem-include_only_images, mem-remove_excluded_images, mem-filter_out_whole_namespaces,
  mem-filter_only_from_namespaces,
}
use kubernetes_images_sync_o.Api.{ClusterImageExportSpec}
use kubernetes_images_sync_o.ExportController.Selection.{when_given, select_images}

-- The image is wanted by the four lists of the export.
pub record IsSelected (unicode_lower : ℕ → ℕ) (spec : ClusterImageExportSpec) (c : Container)
    : Type 0 where
  pub included : spec.includes ≢ [] → Matches unicode_lower spec.includes c
  pub not_excluded : ¬ Matches unicode_lower spec.excludes c
  pub in_namespace : spec.namespaces ≢ [] → Mem c.image_namespace spec.namespaces
  pub not_in_namespace : ¬ Mem c.image_namespace spec.excluded_namespaces

module _ (P : List Text → Type 0) (filter : ContainersList → List Text → ContainersList)
    (list : ContainersList) (c : Container) where
  -- A filter that keeps what satisfies `P`, used where its list is not empty.
  mem-when_given :
      (patterns : List Text)
      → (Mem c (filter list patterns) ↔ (Mem c list × P patterns))
      → Mem c (when_given patterns filter list) ↔ (Mem c list × (patterns ≢ [] → P patterns))
  mem-when_given [] h = ((λ m. (m, λ n. absurd (n refl))), λ (m, k). m)
  mem-when_given (p ∷ patterns) h =
      ((λ m. let (n, k) = h.0 m in (n, λ _. k)), (λ (n, k). h.1 (n, k (λ e. cc))))

not-Matches-nil : (unicode_lower : ℕ → ℕ) (c : Container) → ¬ Matches unicode_lower [] c
not-Matches-nil unicode_lower c t = ∥∥₁_elim t ⊥_prop (λ (p, m, o). not-mem-nil m)

-- A condition that holds of the empty list anyway.
drop_guard :
    (P : List Text → Type 0) (patterns : List Text)
    → P []
    → (patterns ≢ [] → P patterns)
    → P patterns
drop_guard P [] h k = h
drop_guard P (p ∷ patterns) h k = k (λ e. cc)

-- An export takes each image of the cluster that its lists want, once, and no other: the name has one
-- of `includes` in it, if there are any, and none of `excludes`, case aside; the namespace is one of
-- `namespaces`, if there are any, and none of `excludedNamespaces`.
pub select_images_lem :
    (unicode_lower : ℕ → ℕ) (spec : ClusterImageExportSpec) (list : ContainersList)
    → Nodup (select_images unicode_lower spec list)
      × ((c : Container)
          → Mem c (select_images unicode_lower spec list)
            ↔ (Mem c list × IsSelected unicode_lower spec c))
unfolding select_images
select_images_lem unicode_lower spec list =
    let included = when_given spec.includes (include_only_images unicode_lower) list in
    let rest = when_given spec.excludes (remove_excluded_images unicode_lower) included in
    let inside = when_given spec.namespaces filter_only_from_namespaces rest in
    let outside = when_given spec.excluded_namespaces filter_out_whole_namespaces inside in
    let (once, same) = remove_duplicates_lem outside in
    let has = λ (c : Container) (patterns : List Text). Matches unicode_lower patterns c in
    let has_none = λ (c : Container) (patterns : List Text). ¬ Matches unicode_lower patterns c in
    let inside_of = λ (c : Container) (namespaces : List Text). Mem c.image_namespace namespaces in
    let outside_of =
      λ (c : Container) (namespaces : List Text). ¬ Mem c.image_namespace namespaces in
    (
      once,
      λ c.
          let step_1 =
            mem-when_given (has c) (include_only_images unicode_lower) list c spec.includes
              (mem-include_only_images unicode_lower list spec.includes c) in
          let step_2 =
            mem-when_given (has_none c) (remove_excluded_images unicode_lower) included c
              spec.excludes (mem-remove_excluded_images unicode_lower included spec.excludes c) in
          let step_3 =
            mem-when_given (inside_of c) filter_only_from_namespaces rest c spec.namespaces
              (mem-filter_only_from_namespaces spec.namespaces c rest) in
          let step_4 =
            mem-when_given (outside_of c) filter_out_whole_namespaces inside c
              spec.excluded_namespaces
              (mem-filter_out_whole_namespaces inside spec.excluded_namespaces c) in
          (
            (λ m.
                let (m4, out) = step_4.0 ((same c).0 m) in
                let (m3, ins) = step_3.0 m4 in
                let (m2, none_of) = step_2.0 m3 in
                let (m1, one_of) = step_1.0 m2 in
                (
                  m1,
                  record {
                    included = one_of;
                    not_excluded =
                        drop_guard (has_none c) spec.excludes (not-Matches-nil unicode_lower c)
                          none_of;
                    in_namespace = ins;
                    not_in_namespace =
                        drop_guard (outside_of c) spec.excluded_namespaces not-mem-nil out;
                  },
                )),
            (λ (m, h). (same c).1 (
                step_4.1 (
                  step_3.1
                      (step_2.1 (step_1.1 (m, h.included), λ _. h.not_excluded), h.in_namespace),
                  λ _. h.not_in_namespace,
                ))),
          ),
    )
