-- ===== src/ExportController/Completion.antt =====
-- When an export is complete.
use kubernetes_images_sync_o.Base.{
  ◌≡◌, ◌↔◌, ◌⊎◌, ◌∙◌, sym, Bool-cases, refl, inl, inr, true, false, not, List, [], ◌∷◌, All, arith,
  any,
}
use kubernetes_images_sync_o.Text.{text_eq}
use kubernetes_images_sync_o.Errors.{ok}
use kubernetes_images_sync_o.Progress.{unset, starting, success, present, other, progress_eq}
use kubernetes_images_sync_o.Progress.Laws.{progress_eq_iff}
use kubernetes_images_sync_o.Api.{ClusterImage, ClusterImageExport}
use kubernetes_images_sync_o.Cluster.{Call, World, Operator, Scope, of_export}
use kubernetes_images_sync_o.Cluster.Op.{record_call}
use kubernetes_images_sync_o.ImageController.Aggregate.{summary}
use kubernetes_images_sync_o.ImageController.Aggregation.{all_completed-summary, is_open}
use kubernetes_images_sync_o.ImageController.Methods.{done, requeue}
use kubernetes_images_sync_o.ImageController.Outcomes.{Healthy}
use kubernetes_images_sync_o.ExportController.Methods
use kubernetes_images_sync_o.ExportController.Methods.{is_complete, all_complete}

-- A status that `updateClusterImageExportStatus` looks at.
abbrev pub IsCounted : ClusterImage → Type 0
IsCounted ci = elim ci.status.progress [ unset ↦ ⊥ | starting ↦ ⊥ | other t ↦ ⊥ | _ ↦ Unit ]

complete_open :
    (ci : ClusterImage) → IsCounted ci → is_complete ci.status.progress ≡ not (is_open ci)
unfolding progress_eq text_eq
complete_open ci h = ground arith

all_complete_open :
    (items : List ClusterImage) → All IsCounted items → all_complete items ≡ not (any is_open items)
unfolding all_complete any
all_complete_open [] h = refl
all_complete_open (ci ∷ items) (known, h) =
    rw (complete_open ci known, all_complete_open items h) (ground arith)

-- The two controllers agree on whether an export is complete as long as each of its images has a status
-- that both look at.
pub all_complete-summary :
    (items : List ClusterImage)
    → All IsCounted items
    → all_complete items ≡ (summary items).all_completed
all_complete-summary items h = all_complete_open items h ∙ sym (all_completed-summary items)

-- COMPLETED or PRESENT.
abbrev pub IsStored : ClusterImage → Type 0
IsStored ci = (ci.status.progress ≡ success) ⊎ (ci.status.progress ≡ present)

all_complete_iff : (items : List ClusterImage) → (all_complete items ≡ true) ↔ All IsStored items
unfolding all_complete
all_complete_iff [] = ((λ e. tt), λ t. refl)
all_complete_iff (ci ∷ items) = ground (
  arith,
  all_complete_iff items,
  progress_eq_iff ci.status.progress success,
  progress_eq_iff ci.status.progress present,
)

module _ (world : World) (export : ClusterImageExport) (s : Operator)
    (items : List ClusterImage) where
  abbrev pub scope : Scope
  scope = of_export export.meta.namespace export.meta.name

  abbrev pub after_list : Operator
  after_list = record_call (Call.list_images scope) s

  -- Where the API server takes every write and the images of the export can be listed: after a loop that
  -- met no failed image, the export becomes COMPLETED if all its images are COMPLETED or PRESENT, and
  -- else nothing is written and the export is looked at again.
  pub conclude_lem :
      Healthy world
      → world.images_in s.calls scope ≡ ok items
      → ((All IsStored items)
          × (Methods.conclude world export false s ≡ (
            ok done,
            record_call
                (Call.update_export_status (Methods.set_progress success export))
                after_list,
          )))
        ⊎ ((¬ All IsStored items)
            × (Methods.conclude world export false s ≡ (ok requeue, after_list)))
  unfolding Methods.conclude Methods.check_all_cluster_images_completed
  conclude_lem healthy listing = elim (Bool-cases (all_complete items)) [
    | inl e ↦ inl ((all_complete_iff items).0 e, rw (listing, e, healthy) refl)
    | inr e ↦ inr ((λ h. absurd (cc ((all_complete_iff items).1 h))), rw (listing, e) refl)
  ]
