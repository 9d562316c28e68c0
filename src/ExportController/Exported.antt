-- ===== src/ExportController/Exported.antt =====
-- `Reconcile` of an export at work (clusterimageexport_controller.go), from the listing of the images to
-- the end.
pub mod Reconciled
use mathlib.Core.List.{Mem, Nodup}
use kubernetes_images_sync_o.Base.{
  true, ◌≡◌, ◌⊎◌, refl, sym, subst, inl, inr, Bool, false, List, ◌∷◌, ◌++◌, All, ◌↔◌, if◌then◌else◌,
}
use kubernetes_images_sync_o.Errors.{Result, ok}
use kubernetes_images_sync_o.Progress.{running, failed, success}
use kubernetes_images_sync_o.Api.{ClusterImage, ClusterImageExport}
use kubernetes_images_sync_o.Containers.{Container, ContainersList}
use kubernetes_images_sync_o.Reference.Cache.{IsSound}
use kubernetes_images_sync_o.Cluster.{Call, Scope, World, Operator, Workload, of_export}
use kubernetes_images_sync_o.Cluster.Op.{Op, ◌>>=◌, continue, write, record_call}
use kubernetes_images_sync_o.Workers.Named.{Gathered}
use kubernetes_images_sync_o.Workers.Complete.{IsOrderly}
use kubernetes_images_sync_o.ImageController.Methods.{Outcome, done, requeue}
use kubernetes_images_sync_o.ImageController.Outcomes.{Healthy}
use kubernetes_images_sync_o.ExportController.Additional.{parsed, add_images-parsed}
use kubernetes_images_sync_o.ExportController.Completion.{IsStored, conclude_lem}
use kubernetes_images_sync_o.ExportController.Creation.{IsAnswered}
use kubernetes_images_sync_o.ExportController.Loop.{Loop, create_images-Loops}
use kubernetes_images_sync_o.ExportController.Listing.{
  listed_calls, list_images_sound, list_images-calls, AreListed, list_images_in_cluster_total,
}
use kubernetes_images_sync_o.ExportController.Methods
use kubernetes_images_sync_o.ExportController.Selected.{IsSelected}

-- Behind a call of a method that returns.
pub bind_then :
    {A B : Type 0} (P : Result B × Operator → Type 0) (m : Op A) (f : A → Op B) (s : Operator)
    (a : A)
    → (m s).0 ≡ ok a
    → P (f a (m s).1)
    → P ((m >>= f) s)
bind_then P m f s a e h = subst (λ r. P (continue r (m s).1 f)) (sym e) h

module _ (world : World) where
  abbrev scope_of : ClusterImageExport → Scope
  scope_of export = of_export export.meta.namespace export.meta.name

  -- These are the images that the export wants: those that its lists want of the workloads that are
  -- listed after the calls, each once, and then the additional ones whose names parse.
  abbrev pub AreWanted : ClusterImageExport → List Call → ContainersList → Type 0
  AreWanted export calls images =
      (found : ContainersList) × (images ≡ found ++ parsed export.spec.additional_images)
      × Nodup found
      × (workloads : List Workload) × AreListed world calls workloads
      × ∥ (
          (whole : ContainersList) × Gathered workloads whole
          × ((c : Container)
              → Mem c found ↔ (Mem c whole × IsSelected world.unicode_lower export.spec c))) ∥₁

  -- Behind the loop, by what it returned and the calls up to then: nothing happens if it met an image that
  -- has failed; else the images of the export are listed. If all are stored, the export
  -- becomes COMPLETED; if not, it is looked at again.
  abbrev pub IsConcluded :
      ClusterImageExport → Bool → List Call → Result Outcome × Operator → Type 0
  IsConcluded export true calls (r, s) = (r ≡ ok done) × (s.calls ≡ calls)
  IsConcluded export false calls (r, s) =
      (items : List ClusterImage) × (world.images_in calls (scope_of export) ≡ ok items)
      × (All IsStored items
            × (r ≡ ok done)
            × (s.calls
                ≡ Call.update_export_status (Methods.set_progress success export)
                  ∷ Call.list_images (scope_of export)
                  ∷ calls)
          ⊎ (¬ All IsStored items)
            × (r ≡ ok requeue)
            × (s.calls ≡ Call.list_images (scope_of export) ∷ calls))

  -- The end of a run that has made these calls before the loop over these images.
  abbrev pub Ends :
      ClusterImageExport → List Call → ContainersList → Result Outcome × Operator → Type 0
  Ends export before images run =
      (end : Bool) × (after : List Call) × Loop world export before images end after
      × IsConcluded export end after run

  -- The run behind these calls: the workloads are listed, the export is set to RUNNING, the loop is over
  -- the images that the export wants, and the calls are just those.
  abbrev pub IsExported : ClusterImageExport → List Call → Result Outcome × Operator → Type 0
  IsExported export calls run =
      let at_running = Methods.set_progress running export in
      (images : ContainersList) × AreWanted export calls images
      × Ends at_running (Call.update_export_status at_running ∷ listed_calls calls) images run

  -- Every list of images is answered.
  abbrev pub ListsImages : Type 0
  ListsImages =
      (calls : List Call) (scope : Scope)
      → (items : List ClusterImage) × (world.images_in calls scope ≡ ok items)

  module _ (healthy : Healthy world) (lists : ListsImages) where
    concluded_lem :
        (export : ClusterImageExport) (end : Bool) (s : Operator)
        → IsConcluded export end s.calls (Methods.conclude world export end s)
    unfolding Methods.conclude
    concluded_lem export true s = (refl, refl)
    concluded_lem export false s =
        let (items, listed) = lists s.calls (scope_of export) in
        elim (conclude_lem world export s items healthy listed) [
          | inl (stored, run) ↦
              subst (IsConcluded export false s.calls) (sym run)
                (items, listed, inl (stored, refl, refl))
          | inr (missing, run) ↦
              subst (IsConcluded export false s.calls) (sym run)
                (items, listed, inr (missing, refl, refl))
        ]

    module _ (orderly : IsOrderly world) (export : ClusterImageExport)
        (answered : (c : Container) → IsAnswered world export c) where
      -- From the list of wanted images on.
      worked_lem :
          (images : ContainersList) (s : Operator)
          → Ends
              (Methods.set_progress running export)
              (Call.update_export_status (Methods.set_progress running export) ∷ s.calls)
              images
              ((write world (Call.update_export_status (Methods.set_progress running export))
                  >>= λ _.
                      Methods.create_images world (Methods.set_progress running export) images
                      >>= Methods.conclude world (Methods.set_progress running export))
                s)
      worked_lem images s =
          let at_running = Methods.set_progress running export in
          let c = Call.update_export_status at_running in
          let before = c ∷ s.calls in
          let s' = record_call c s in
          let created = Methods.create_images world at_running images in
          let (end, e, loop) = create_images-Loops world healthy at_running answered images s' in
          bind_then (Ends at_running before images) (write world c)
            (λ _. created >>= Methods.conclude world at_running) s tt (healthy s.calls c)
            (bind_then (Ends at_running before images) created (Methods.conclude world at_running)
              s' end e
              (end, (created s').1.calls, loop, concluded_lem at_running end (created s').1))

      pub export_images_lem :
          (s : Operator)
          → IsSound s.cache
          → IsExported export s.calls (Methods.export_images world export s)
      unfolding Methods.export_images
      export_images_lem s sound =
          let at_running = Methods.set_progress running export in
          let (found, listed, nodup, workloads, are_listed, wanted) =
            list_images_in_cluster_total world export s orderly sound in
          let s' = (Methods.list_images_in_cluster world export s).1 in
          let sound' : IsSound s'.cache =
            ((list_images_sound world orderly.once export).at s sound).0 in
          let (images, cache') = Methods.add_images export.spec.additional_images found s'.cache in
          let start = record s' { cache = cache' } in
          (
            images,
            (
              found,
              add_images-parsed export.spec.additional_images found s'.cache sound',
              nodup,
              workloads,
              are_listed,
              wanted,
            ),
            bind_then
                (Ends at_running (Call.update_export_status at_running ∷ listed_calls s.calls)
                  images)
                (Methods.list_images_in_cluster world export) _ s found listed
                (subst
                  (λ calls. Ends at_running (Call.update_export_status at_running ∷ calls) images (
                    (write world (Call.update_export_status at_running) >>= λ _.
                    Methods.create_images world at_running images
                    >>= Methods.conclude world at_running)
                      start))
                  (list_images-calls world export s found listed) (worked_lem images start)),
          )
