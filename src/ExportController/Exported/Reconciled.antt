-- ===== src/ExportController/Exported/Reconciled.antt =====
-- A whole reconciliation of an export at work.
use kubernetes_images_sync_o.Base.{
  List, ◌∷◌, ◌≡◌, sym, subst, inl, inr, Bool, true, false, Bool-cases, if◌then◌else◌,
}
use kubernetes_images_sync_o.Errors.{ok}
use kubernetes_images_sync_o.Progress.{unset, pending, progress_eq}
use kubernetes_images_sync_o.Api.{ClusterImageExport}
use kubernetes_images_sync_o.Containers.{Container}
use kubernetes_images_sync_o.Reference.Cache.{IsSound}
use kubernetes_images_sync_o.Cluster.{Call, Key, World, Operator}
use kubernetes_images_sync_o.Cluster.Op.{◌>>=◌, write, record_call}
use kubernetes_images_sync_o.Workers.Complete.{IsOrderly}
use kubernetes_images_sync_o.ImageController.Outcomes.{Healthy}
use kubernetes_images_sync_o.ExportController.Creation.{IsAnswered}
use kubernetes_images_sync_o.ExportController.Lifecycle.{is_settled}
use kubernetes_images_sync_o.ExportController.Methods
use kubernetes_images_sync_o.ExportController.Methods.{finalizer}
use kubernetes_images_sync_o.ExportController.Exported.{
  IsExported, ListsImages, bind_then, export_images_lem,
}

module _ (world : World) where
  -- The export as it is read, or with the finalizer.
  abbrev with_or_without : Bool → ClusterImageExport → ClusterImageExport
  with_or_without has export = if has then export else world.add_finalizer export finalizer

  abbrev pub finalized : ClusterImageExport → ClusterImageExport
  finalized export = with_or_without (world.contains_finalizer export finalizer) export

  -- The calls before the listing: the export is read, gets the finalizer if it has none, and becomes
  -- PENDING if its status is empty.
  abbrev finalizer_calls : Bool → ClusterImageExport → List Call → List Call
  finalizer_calls has export calls =
      if has then calls else Call.update_export (world.add_finalizer export finalizer) ∷ calls

  abbrev pending_calls : ClusterImageExport → List Call → List Call
  pending_calls export calls =
      if progress_eq export.progress unset
      then Call.update_export_status (Methods.set_progress pending export) ∷ calls
      else calls

  abbrev pub opening : Key → ClusterImageExport → List Call → List Call
  opening request export calls = pending_calls (finalized export) (
      finalizer_calls (world.contains_finalizer export finalizer) export
        (Call.get_export request ∷ calls))

  module _ (healthy : Healthy world) (lists : ListsImages world) (orderly : IsOrderly world) where
    proceed_lem :
        (export : ClusterImageExport) (s : Operator)
        → IsSound s.cache
        → is_settled export.progress ≡ false
        → ((c : Container) → IsAnswered world export c)
        → IsExported world export (pending_calls export s.calls) (Methods.proceed world export s)
    unfolding Methods.proceed
    proceed_lem export s sound unsettled answered =
        let at_pending = Methods.set_progress pending export in
        let c = Call.update_export_status at_pending in
        rw unsettled (elim (Bool-cases (progress_eq export.progress unset)) [
          | inl e ↦ rw e (
              bind_then (IsExported world export (c ∷ s.calls)) (write world c)
                (λ _. Methods.export_images world at_pending) s tt (healthy s.calls c)
                (export_images_lem world healthy lists orderly at_pending answered (record_call c s)
                  sound))
          | inr e ↦ rw e (export_images_lem world healthy lists orderly export answered s sound)
        ])

    -- Whether the export has the finalizer or not.
    by_finalizer :
        (has : Bool) (export : ClusterImageExport) (s : Operator)
        → IsSound s.cache
        → is_settled (with_or_without has export).progress ≡ false
        → ((c : Container) → IsAnswered world (with_or_without has export) c)
        → IsExported world
            (with_or_without has export)
            (pending_calls (with_or_without has export) (finalizer_calls has export s.calls))
            ((if has
                then Methods.proceed world export
                else (write world (Call.update_export (world.add_finalizer export finalizer))
                    >>= λ _. Methods.proceed world (world.add_finalizer export finalizer)))
              s)
    by_finalizer true export s sound unsettled answered =
        proceed_lem export s sound unsettled answered
    by_finalizer false export s sound unsettled answered =
        let added = world.add_finalizer export finalizer in
        let c = Call.update_export added in
        bind_then (IsExported world added (pending_calls added (c ∷ s.calls))) (write world c)
          (λ _. Methods.proceed world added) s tt (healthy s.calls c)
          (proceed_lem added (record_call c s) sound unsettled answered)

    with_export_lem :
        (request : Key) (export : ClusterImageExport) (s : Operator)
        → IsSound s.cache
        → export.meta.deleted ≡ false
        → is_settled (finalized export).progress ≡ false
        → ((c : Container) → IsAnswered world (finalized export) c)
        → IsExported world
            (finalized export)
            (opening request export s.calls)
            (Methods.with_export world (ok export) (record_call (Call.get_export request) s))
    unfolding Methods.with_export Methods.with_finalizer
    with_export_lem request export s sound kept unsettled answered =
        let start = record_call (Call.get_export request) s in
        subst
          (λ deleted. IsExported world (finalized export) (opening request export s.calls) (
            (if deleted
                then Methods.handle_deletion world export
                else Methods.with_finalizer world export)
              start))
          (sym kept)
          (by_finalizer (world.contains_finalizer export finalizer) export start sound unsettled
            answered)

-- An export that is not deleted and whose status is neither COMPLETED nor FAILED, in an orderly cluster that
-- takes every write, lists images and knows whether there is one under each name, with a sound cache: a
-- reconciliation of it ends without an error, and all its calls are the following. The export is read, the
-- finalizer is added where it is missing, and PENDING is written after an empty status. The workloads of the
-- four kinds are listed, and RUNNING is written. The images are those that the lists of the export
-- want of the workloads, each once, and then the additional ones whose names parse: in turn, each is looked
-- up by name and created if there is none, and no other image is created. At the first one that is found to
-- have failed, the export is set to FAILED, which is the last call. Else the images of the export are listed,
-- and it becomes COMPLETED if all are COMPLETED or PRESENT; if not, nothing more is written and it is
-- looked at again.
pub reconcile-IsExported :
    (world : World) (request : Key) (export : ClusterImageExport) (s : Operator)
    → IsOrderly world
    → Healthy world
    → ListsImages world
    → IsSound s.cache
    → world.export_at s.calls request ≡ ok export
    → export.meta.deleted ≡ false
    → is_settled (finalized world export).progress ≡ false
    → ((c : Container) → IsAnswered world (finalized world export) c)
    → IsExported world
        (finalized world export)
        (opening world request export s.calls)
        (Methods.reconcile world request s)
unfolding Methods.reconcile
reconcile-IsExported world request export s orderly healthy lists sound found kept unsettled
      answered =
    let start = record_call (Call.get_export request) s in
    subst
      (λ r.
        IsExported world (finalized world export) (opening world request export s.calls)
          (Methods.with_export world r start))
      (sym found)
      (with_export_lem world healthy lists orderly request export s sound kept unsettled answered)
