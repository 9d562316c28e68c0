-- ===== src/ImageController/Outcomes.antt =====
-- What the handlers do where the API server takes every write.
use mathlib.Core.List.{Mem}
use mathlib.Core.Logic.{∥∥₁_map}
use kubernetes_images_sync_o.Base.{
  ◌≡◌, ◌≢◌, ◌↔◌, refl, inl, inr, true, false, Bool-cases, List, ◌∷◌, arith, any, pos, ◌+ℤ◌, ◌⊎◌,
  sym, if◌then◌else◌,
}
use kubernetes_images_sync_o.Text.Laws.{text_eq_iff}
use kubernetes_images_sync_o.Errors.{ok}
use kubernetes_images_sync_o.Progress.{pending, running, success, present, progress_eq, Progress}
use kubernetes_images_sync_o.Api.{ClusterImage, ClusterImageExport}
use kubernetes_images_sync_o.Jobs.{create_job}
use kubernetes_images_sync_o.Containers.Members.{any_iff}
use kubernetes_images_sync_o.Cluster.{Call, World, Operator, everywhere, Scope, of_export}
use kubernetes_images_sync_o.ImageController.Backup.{backup_job}
use kubernetes_images_sync_o.ImageController.Aggregate.{
  is_taken, held_by, Summary, summary, new_status,
}
use kubernetes_images_sync_o.ImageController.Methods
use kubernetes_images_sync_o.Text.{text_eq}
use kubernetes_images_sync_o.Progress.Laws.{progress_eq_iff}
use kubernetes_images_sync_o.Cluster.Op.{record_call}

-- The API server takes every write.
abbrev pub Healthy : World → Type 0
Healthy world = (calls : List Call) (c : Call) → world.written calls c ≡ ok tt

-- Another image of the same full name is exported, held elsewhere, or being exported.
abbrev pub IsHeld : ClusterImage → List ClusterImage → Type 0
IsHeld image items = ∥ (
    (ci : ClusterImage) × Mem ci items
    × (ci.spec.full_name ≡ image.spec.full_name)
    × (ci.meta.name ≢ image.meta.name)
    × (is_taken ci.status.progress ≡ true)) ∥₁

held_by_iff :
    (image ci : ClusterImage)
    → (held_by image ci ≡ true) ↔ (
        (ci.spec.full_name ≡ image.spec.full_name)
        × (ci.meta.name ≢ image.meta.name)
        × (is_taken ci.status.progress ≡ true))
unfolding held_by
held_by_iff image ci = ground (
  arith,
  text_eq_iff ci.spec.full_name image.spec.full_name,
  text_eq_iff ci.meta.name image.meta.name,
)

pub any-held_by_iff :
    (image : ClusterImage) (items : List ClusterImage)
    → (any (held_by image) items ≡ true) ↔ IsHeld image items
any-held_by_iff image items = (
  (λ h.
      ∥∥₁_map ((any_iff _ items).0 h)
        (λ (ci, m, e). let (a, b, c) = (held_by_iff image ci).0 e in (ci, m, a, b, c))),
  (λ t.
      (any_iff _ items).1
        (∥∥₁_map t (λ (ci, m, a, b, c). (ci, m, (held_by_iff image ci).1 (a, b, c))))),
)

pub not_held :
    (image : ClusterImage) (items : List ClusterImage)
    → ¬ IsHeld image items
    → any (held_by image) items ≡ false
not_held image items free = elim (Bool-cases (any (held_by image) items)) [
  | inl e ↦ absurd (free ((any-held_by_iff image items).0 e))
  | inr e ↦ e
]

pub not_success :
    (image : ClusterImage)
    → image.status.progress ≡ pending
    → progress_eq image.status.progress success ≡ false
unfolding progress_eq
not_success image e = rw e refl

module _ (world : World) (image : ClusterImage) (s : Operator) (items : List ClusterImage) where
  abbrev listed_calls : List Call
  listed_calls = Call.list_images everywhere ∷ s.calls

  -- Where the API server takes every write and all images can be listed,
  -- `handlePendingClusterImage` makes an image whose full name another image holds PRESENT: after
  -- the listing its status is written, and nothing else happens.
  pub handle_pending-held :
      Healthy world
      → world.images_in s.calls everywhere ≡ ok items
      → IsHeld image items
      → Methods.handle_pending world image s ≡ (
        ok Methods.done,
        record s {
          calls = Call.update_image_status (Methods.set_progress present image) ∷ listed_calls;
        },
      )
  unfolding Methods.handle_pending
  handle_pending-held healthy listing held =
      rw (listing, (any-held_by_iff image items).1 held, healthy)

  -- Where the API server takes every write, all images can be listed and the export can be read,
  -- `handlePendingClusterImage` starts a PENDING image whose full name no other image holds: after
  -- these two reads its job is created, then its status is written twice, as RUNNING, and one more
  -- job is active.
  pub handle_pending-free :
      (export : ClusterImageExport)
      → Healthy world
      → image.status.progress ≡ pending
      → world.images_in s.calls everywhere ≡ ok items
      → world.export_at listed_calls (Methods.export_key image) ≡ ok export
      → ¬ IsHeld image items
      → let running_image = Methods.set_progress running image in
        Methods.handle_pending world image s ≡ (
          ok Methods.requeue,
          record s {
            active_jobs = s.active_jobs +ℤ pos 1;
            calls =
                Call.update_image_status running_image
                ∷ Call.update_image_status running_image
                ∷ Call.create_job (create_job (backup_job world.service_account image export))
                ∷ Call.get_export (Methods.export_key image)
                ∷ listed_calls;
          },
        )
  unfolding Methods.handle_pending
  handle_pending-free export healthy is_pending listing found free =
      rw (listing, not_held image items free, not_success image is_pending, found) (simp healthy)

success_completed : (f : Summary) → progress_eq (new_status f) success ≡ f.all_completed
unfolding new_status progress_eq text_eq
success_completed f = ground arith

differs : (a b : Progress) → progress_eq a b ≡ false → b ≢ a
differs a b e h = let same : progress_eq a b ≡ true = (progress_eq_iff a b).1 (sym h) in cc

module _ (world : World) (image : ClusterImage) (s : Operator) (export : ClusterImageExport)
    (items : List ClusterImage) where
  abbrev pub export_scope : Scope
  export_scope = of_export image.meta.namespace image.spec.export_name

  -- The export and its images are read.
  abbrev pub after_export_reads : Operator
  after_export_reads = record s {
    calls = Call.list_images export_scope ∷ Call.get_export (Methods.export_key image) ∷ s.calls;
  }

  -- Where the API server takes every write and the export and its images can be read,
  -- `updateClusterImageExportStatus` writes the status that the images give the export if the export has
  -- another one, and nothing if it has that; it asks to be repeated unless the export is complete.
  pub update_cluster_image_export_status_lem :
      Healthy world
      → world.export_at s.calls (Methods.export_key image) ≡ ok export
      → world.images_in (Call.get_export (Methods.export_key image) ∷ s.calls) export_scope
        ≡ ok items
      → let status = new_status (summary items) in
        ((status ≡ export.progress)
          × (Methods.update_cluster_image_export_status world image s ≡ (
            ok (if progress_eq status success then Methods.done else Methods.requeue),
            after_export_reads,
          )))
        ⊎ ((status ≢ export.progress)
            × (Methods.update_cluster_image_export_status world image s ≡ (
              ok (if progress_eq status success then Methods.done else Methods.requeue),
              record_call
                  (Call.update_export_status (record export { progress = status }))
                  after_export_reads,
            )))
  unfolding Methods.update_cluster_image_export_status Methods.set_export_progress
  update_cluster_image_export_status_lem healthy known listing =
      let status = new_status (summary items) in
      elim (Bool-cases (progress_eq export.progress status)) [
        | inl e ↦ inl (
          sym ((progress_eq_iff _ _).0 e),
          rw (known, listing, e) (rw (success_completed (summary items)) refl),
        )
        | inr e ↦ inr (
          differs export.progress status e,
          rw (known, listing, e, healthy) (rw (success_completed (summary items)) refl),
        )
      ]
