-- ===== src/ExportController/Failures/Reported.antt =====
-- Errors of a whole reconciliation of an export (clusterimageexport_controller.go).
use kubernetes_images_sync_o.Base.{
  List, ◌≡◌, ◌≢◌, ◌⊎◌, refl, inl, inr, Bool, true, false, ◌||◌, [], ◌∷◌,
}
use kubernetes_images_sync_o.Errors.{Error, ok, err, not_found}
use kubernetes_images_sync_o.Progress.{unset, pending, running, failed, success, progress_eq}
use kubernetes_images_sync_o.Api.{ClusterImage, ClusterImageExport}
use kubernetes_images_sync_o.Containers.{Container, ContainersList}
use kubernetes_images_sync_o.Cluster.{Call, Key, World, Operator, of_export}
use kubernetes_images_sync_o.Cluster.Op.{
  Op, pure, raise, ◌>>=◌, attempt, write, get_image, list_images,
}
use kubernetes_images_sync_o.Cluster.Stops.{
  Reporting, AllFine, Stopped, Stops-pure, Stops-if, Stops-bind, Stops-attempt,
}
use kubernetes_images_sync_o.Text.{Text}
use kubernetes_images_sync_o.Reference.{ContainerCache, process_container_name}
use kubernetes_images_sync_o.Reference.Cache.{IsSound, process_container_name_lem}
use kubernetes_images_sync_o.Workers.{list_all_resources}
use kubernetes_images_sync_o.Jobs.{create_job}
use kubernetes_images_sync_o.ExportController.Cleanup.{cleanup_job}
use kubernetes_images_sync_o.ExportController.Selection.{select_images}
use kubernetes_images_sync_o.ImageController.Methods.{done, requeue}
use kubernetes_images_sync_o.ExportController.Methods
use kubernetes_images_sync_o.ExportController.Methods.{finalizer, name_hash, new_cluster_image}
use kubernetes_images_sync_o.ExportController.Failures.{
  reporting, StopsHere, strict-Stops, write-Stops, status-Stops, list_all-Stops,
}

module _ (world : World) where
  abbrev r : Reporting
  r = reporting world

  module _ (base : ClusterImageExport) where
    fail-Stops : StopsHere world (
        write world (Call.update_export_status (Methods.set_progress failed base)) >>= λ _.
        pure true)
    fail-Stops =
        Stops-bind world r _ _ (status-Stops world (Methods.set_progress failed base))
          (λ _. Stops-pure world r true)

    module _ (image : Container) (next : Op Bool) (stops : StopsHere world next) where
      found-Stops :
          (existing : ClusterImage)
          → StopsHere world (Methods.create_or_skip world base image (ok existing) next)
      found-Stops existing =
          Stops-if world r (progress_eq existing.status.progress failed) _ _ fail-Stops stops

      create-Stops : StopsHere world (Methods.create_or_skip world base image (err not_found) next)
      create-Stops =
          let created =
            new_cluster_image (name_hash world.md5_hex base.meta.name image) base image in
          Stops-bind world r _ _
            (write-Stops world (Call.create_image created) (λ m. m) (λ before. tt) (λ s. refl))
            (λ _. stops)

      missing-cases :
          (e : Error)
          → (e ≡ not_found)
            ⊎ ((e ≢ not_found) × (Methods.create_or_skip world base image (err e) next ≡ raise e))
      missing-cases not_found = inl refl
      missing-cases _ = inr ((λ q. cc), refl)

      round-Stops : StopsHere world (
          attempt (get_image world (Methods.image_key world base image)) >>= λ existing.
          Methods.create_or_skip world base image existing next)
      round-Stops =
          let key = Methods.image_key world base image in
          Stops-attempt world r (λ s. world.image_at s.calls key) (Call.get_image key)
            (λ existing. Methods.create_or_skip world base image existing next) (λ before. tt)
            (λ s. refl) found-Stops
            (λ e. elim (missing-cases e) [
              | inl gone ↦ inr (gone, tt, rw gone create-Stops)
              | inr (ne, same) ↦ inl (e, same, λ before h. inl (e, h, inl ne, inl refl))
            ])

    create_images-Stops :
        (images : ContainersList) → StopsHere world (Methods.create_images world base images)
    unfolding Methods.create_images
    create_images-Stops [] = Stops-pure world r false
    create_images-Stops (image ∷ images) =
        round-Stops image (Methods.create_images world base images) (create_images-Stops images)

    finish-Stops : (completed : Bool) → StopsHere world (Methods.finish world base completed)
    finish-Stops true =
        Stops-bind world r _ _ (status-Stops world (Methods.set_progress success base))
          (λ _. Stops-pure world r done)
    finish-Stops false = Stops-pure world r requeue

    conclude-Stops : (ended : Bool) → StopsHere world (Methods.conclude world base ended)
    unfolding Methods.conclude Methods.check_all_cluster_images_completed
    conclude-Stops true = Stops-pure world r done
    conclude-Stops false =
        let scope = of_export base.meta.namespace base.meta.name in
        Stops-bind world r (Methods.check_all_cluster_images_completed world base)
          (Methods.finish world base)
          (Stops-bind world r (list_images world scope) _
            (strict-Stops world _ (Call.list_images scope) (λ m. m) (λ before. tt) (λ s. refl))
            (λ items. Stops-pure world r (Methods.all_complete items)))
          finish-Stops

  add_images-IsSound :
      (names : List Text) (list : ContainersList) (cache : ContainerCache)
      → IsSound cache
      → IsSound (Methods.add_images names list cache).1
  unfolding Methods.add_images
  add_images-IsSound [] list cache sound = sound
  add_images-IsSound (name ∷ names) list cache sound =
      let (parsed, cache') = process_container_name name cache in
      add_images-IsSound names (Methods.append_ok list parsed) cache'
        (process_container_name_lem name cache sound).1

  add_additional-Stops :
      (export : ClusterImageExport) (list : ContainersList)
      → StopsHere world (Methods.add_additional_images world export list)
  add_additional-Stops export list = record {
    at = λ s sound h. (h, add_images-IsSound export.spec.additional_images list s.cache sound);
  }

  export_images-Stops :
      (export : ClusterImageExport) → StopsHere world (Methods.export_images world export)
  unfolding Methods.export_images Methods.list_images_in_cluster
  export_images-Stops export =
      Stops-bind world r (Methods.list_images_in_cluster world export) _
        (Stops-bind world r (list_all_resources world) _ (list_all-Stops world)
          (λ list. Stops-pure world r (select_images world.unicode_lower export.spec list)))
        (λ found.
          Stops-bind world r (Methods.add_additional_images world export found) _
            (add_additional-Stops export found)
            (λ list.
              let at_running = Methods.set_progress running export in
              Stops-bind world r _ _ (status-Stops world at_running) (λ _.
                Stops-bind world r (Methods.create_images world at_running list) _
                  (create_images-Stops at_running list) (conclude-Stops at_running))))

  proceed-Stops : (export : ClusterImageExport) → StopsHere world (Methods.proceed world export)
  unfolding Methods.proceed
  proceed-Stops export =
      Stops-if world r (progress_eq export.progress success || progress_eq export.progress failed) _
        _ (Stops-pure world r done)
        (Stops-if world r (progress_eq export.progress unset) _ _
          (Stops-bind world r _ _ (status-Stops world (Methods.set_progress pending export))
            (λ _. export_images-Stops (Methods.set_progress pending export)))
          (export_images-Stops export))

  update-Stops : (w : ClusterImageExport) → StopsHere world (write world (Call.update_export w))
  update-Stops w = write-Stops world (Call.update_export w) (λ m. m) (λ before. tt) (λ s. refl)

  handle_deletion-Stops :
      (export : ClusterImageExport) → StopsHere world (Methods.handle_deletion world export)
  unfolding Methods.handle_deletion Methods.run_cleanup_job
  handle_deletion-Stops export =
      let cleanup = Call.create_job (create_job (cleanup_job world.service_account export)) in
      Stops-if world r (world.contains_finalizer export finalizer) _ _
        (Stops-bind world r _ _ (write-Stops world cleanup (λ m. m) (λ before. tt) (λ s. refl))
          (λ _.
            Stops-bind world r _ _ (update-Stops (world.remove_finalizer export finalizer))
              (λ _. Stops-pure world r done)))
        (Stops-pure world r done)

  with_finalizer-Stops :
      (export : ClusterImageExport) → StopsHere world (Methods.with_finalizer world export)
  unfolding Methods.with_finalizer
  with_finalizer-Stops export =
      Stops-if world r (world.contains_finalizer export finalizer) _ _ (proceed-Stops export) (
        Stops-bind world r _ _ (update-Stops (world.add_finalizer export finalizer))
          (λ _. proceed-Stops (world.add_finalizer export finalizer)))

  export_found-Stops :
      (export : ClusterImageExport) → StopsHere world (Methods.with_export world (ok export))
  unfolding Methods.with_export
  export_found-Stops export =
      Stops-if world r export.meta.deleted _ _ (handle_deletion-Stops export)
        (with_finalizer-Stops export)

  no_export-cases :
      (e : Error)
      → ((e ≡ not_found) × StopsHere world (Methods.with_export world (err e)))
        ⊎ ((e ≢ not_found) × (Methods.with_export world (err e) ≡ raise e))
  unfolding Methods.with_export
  no_export-cases not_found = inl (refl, Stops-pure world r done)
  no_export-cases _ = inr ((λ q. cc), refl)

-- A reconciliation of an export that starts with a sound cache, behind calls that are fine, returns without
-- an error only if all its calls are fine too: each has succeeded, or it has found nothing where it
-- looked for the export or an image, and behind each listing of workloads the wait was not
-- interrupted and all goroutines got through their images, whose names all parse. If it returns an error,
-- its last call is to blame and all calls before are fine: the last call has failed, and its error is
-- returned as it is or as that of listing resources, or it is a listing of workloads that was answered, and
-- the wait for the goroutines was interrupted, or one of them found the context done before one of its
-- images, or came to an image name that does not parse, whose error is returned.
pub reconcile_export-Stopped :
    (world : World) (request : Key) (s : Operator)
    → IsSound s.cache
    → AllFine world (reporting world) s.calls
    → Stopped world (reporting world) (Methods.reconcile world request s)
unfolding Methods.reconcile
reconcile_export-Stopped world request s sound fine =
    ((Stops-attempt world (reporting world) (λ t. world.export_at t.calls request)
        (Call.get_export request) (Methods.with_export world) (λ before. tt) (λ t. refl)
        (export_found-Stops world)
        (λ e. elim (no_export-cases world e) [
          | inl (gone, stops) ↦ inr (gone, tt, stops)
          | inr (ne, same) ↦ inl (e, same, λ before h. inl (e, h, inl ne, inl refl))
        ])).at
      s sound fine).0
