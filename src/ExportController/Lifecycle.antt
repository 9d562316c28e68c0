-- ===== src/ExportController/Lifecycle.antt =====
-- What one reconciliation of an export may write.
use kubernetes_images_sync_o.Base.{
  List, sym, subst, ◌≡◌, refl, inl, inr, Bool, true, false, [], ◌∷◌, All,
}
use kubernetes_images_sync_o.Errors.{Result, ok, err, not_found}
use kubernetes_images_sync_o.Progress.{
  Progress, unset, pending, running, failed, success, progress_eq,
}
use kubernetes_images_sync_o.Progress.Laws.{progress_eq_iff}
use kubernetes_images_sync_o.Api.{ClusterImage, ClusterImageExport}
use kubernetes_images_sync_o.Containers.{Container, ContainersList}
use kubernetes_images_sync_o.Cluster.{
  Call, Key, World, Operator, WorkloadKind, deployments, jobs, daemon_sets, cron_jobs, of_export,
}
use kubernetes_images_sync_o.Cluster.Op.{Op, write, attempt, get_image, list_images, record_call}
use kubernetes_images_sync_o.Cluster.Keeps.{
  Keeps, Keeps-pure, Keeps-raise, Keeps-call, Keeps-bind, Keeps-if, Keeps-attempt,
}
use kubernetes_images_sync_o.Jobs.{create_job}
use kubernetes_images_sync_o.ExportController.Cleanup.{cleanup_job}
use kubernetes_images_sync_o.Workers.{list_all_resources, list_and_process_resources}
use kubernetes_images_sync_o.ExportController.Selection.{select_images}
use kubernetes_images_sync_o.ImageController.Methods.{done, requeue}
use kubernetes_images_sync_o.ExportController.Listing.{list_and_process_resources-calls}
use kubernetes_images_sync_o.ExportController.Methods
use kubernetes_images_sync_o.ExportController.Methods.{finalizer, name_hash, new_cluster_image}
pub use kubernetes_images_sync_o.ExportController.Lifecycle.Permit.{
  AtWork, Granted, IsBase, Written, is_settled,
}
mod Permit

module _ (world : World) (export : ClusterImageExport) (I : List Call → Type 0)
    (kept_by : (c : Call) (calls : List Call)
      → Granted world export c
      → I calls
      → I (c ∷ calls)) where
  abbrev Inv : Operator → Type 0
  Inv s = I s.calls

  abbrev Allowed : {A : Type 0} → Op A → Type 0
  Allowed m = Keeps Inv (λ _. Unit {0}) m

  call-Keeps :
      {A : Type 0} {R : A → Type 0} (answer : Operator → Result A) (c : Call)
      → Granted world export c
      → ((a : A) → R a)
      → Keeps Inv R (λ s. (answer s, record_call c s))
  call-Keeps answer c h r = Keeps-call Inv answer c (λ s i. kept_by c s.calls h i) r

  write-Keeps : (c : Call) → Granted world export c → Allowed (write world c)
  write-Keeps c h = call-Keeps _ c h (λ _. tt)

  resources_keeps :
      (kind : WorkloadKind) (list : ContainersList)
      → Allowed (list_and_process_resources world kind list)
  resources_keeps kind list = record {
    at = λ s h. (
      subst I (sym (list_and_process_resources-calls world kind list s))
          (kept_by (Call.list_workloads kind) s.calls tt h),
      λ _ _. tt,
    );
  }

  list_all_keeps : Allowed (list_all_resources world)
  unfolding list_all_resources
  list_all_keeps =
      Keeps-bind Inv (list_and_process_resources world deployments []) _
        (resources_keeps deployments [])
        (λ a _.
          Keeps-bind Inv (list_and_process_resources world jobs a) _ (resources_keeps jobs a)
            (λ b _.
              Keeps-bind Inv (list_and_process_resources world daemon_sets b) _
                (resources_keeps daemon_sets b) (λ c _. resources_keeps cron_jobs c)))

  module _ (base : ClusterImageExport) (work : AtWork world export base) where
    abbrev at_running : ClusterImageExport
    at_running = Methods.set_progress running base

    status_keeps :
        (p : Progress)
        → Written p base.progress
        → Allowed (write world (Call.update_export_status (record base { progress = p })))
    status_keeps p h =
        write-Keeps (Call.update_export_status (record base { progress = p })) (base, work, refl, h)

    create_or_skip_keeps :
        (image : Container) (found : Result ClusterImage) (next : Op Bool)
        → Allowed next
        → Allowed (Methods.create_or_skip world at_running image found next)
    unfolding new_cluster_image
    create_or_skip_keeps image (ok existing) next k =
        Keeps-if Inv (progress_eq existing.status.progress failed) _ _
          (λ _.
            Keeps-bind Inv
              (write world (Call.update_export_status (Methods.set_progress failed base))) _
              (status_keeps failed tt) (λ _ _. Keeps-pure Inv true tt))
          (λ _. k)
    create_or_skip_keeps image (err not_found) next k =
        let name = name_hash world.md5_hex base.meta.name image in
        Keeps-bind Inv (write world (Call.create_image (new_cluster_image name at_running image))) _
          (write-Keeps (Call.create_image (new_cluster_image name at_running image))
            (base, work, image, refl))
          (λ _ _. k)
    create_or_skip_keeps image (err e) next k = Keeps-raise Inv e

    create_images_keeps :
        (images : ContainersList) → Allowed (Methods.create_images world at_running images)
    unfolding Methods.create_images
    create_images_keeps [] = Keeps-pure Inv false tt
    create_images_keeps (image ∷ images) =
        Keeps-bind Inv (attempt (get_image world (Methods.image_key world base image))) _
          (Keeps-attempt Inv _ (
            call-Keeps {R = λ _. Unit {0}} _ (Call.get_image (Methods.image_key world base image))
              tt (λ _. tt)))
          (λ found _.
            create_or_skip_keeps image found (Methods.create_images world at_running images)
              (create_images_keeps images))

    finish_keeps : (completed : Bool) → Allowed (Methods.finish world at_running completed)
    finish_keeps true =
        Keeps-bind Inv (write world (Call.update_export_status (Methods.set_progress success base)))
          _ (status_keeps success tt) (λ _ _. Keeps-pure Inv done tt)
    finish_keeps false = Keeps-pure Inv requeue tt

    conclude_keeps : (ended : Bool) → Allowed (Methods.conclude world at_running ended)
    unfolding Methods.conclude Methods.check_all_cluster_images_completed
    conclude_keeps true = Keeps-pure Inv done tt
    conclude_keeps false =
        let scope = of_export base.meta.namespace base.meta.name in
        Keeps-bind Inv (Methods.check_all_cluster_images_completed world at_running)
          (Methods.finish world at_running)
          (Keeps-bind Inv (list_images world scope) _
            (call-Keeps {R = λ _. Unit {0}} _ (Call.list_images scope) tt (λ _. tt))
            (λ items _. Keeps-pure Inv {R = λ _. Unit {0}} (Methods.all_complete items) tt))
          (λ completed _. finish_keeps completed)

    export_images_keeps :
        (p : Progress) → Allowed (Methods.export_images world (Methods.set_progress p base))
    unfolding Methods.export_images Methods.list_images_in_cluster
    export_images_keeps p =
        Keeps-bind Inv (Methods.list_images_in_cluster world (Methods.set_progress p base)) _
          (Keeps-bind Inv (list_all_resources world) _ list_all_keeps (λ list _.
            Keeps-pure Inv {R = λ _. Unit {0}} (select_images world.unicode_lower base.spec list)
              tt))
          (λ found _.
            Keeps-bind Inv (Methods.add_additional_images world (Methods.set_progress p base) found)
              _ (record { at = λ s h. (h, λ _ _. tt) })
              (λ list _.
                Keeps-bind Inv (write world (Call.update_export_status at_running)) _
                  (status_keeps running tt)
                  (λ _ _.
                    Keeps-bind Inv (Methods.create_images world at_running list) _
                      (create_images_keeps list) (λ ended _. conclude_keeps ended))))

  proceed_keeps :
      (base : ClusterImageExport)
      → IsBase world export base
      → export.meta.deleted ≡ false
      → Allowed (Methods.proceed world base)
  unfolding Methods.proceed
  proceed_keeps base is_base kept =
      Keeps-if Inv (is_settled base.progress) _ _ (λ _. Keeps-pure Inv done tt)
        (λ unsettled.
          let work : AtWork world export base = (is_base, kept, unsettled) in
          Keeps-if Inv (progress_eq base.progress unset) _ _
            (λ e.
              Keeps-bind Inv
                (write world (Call.update_export_status (Methods.set_progress pending base))) _
                (status_keeps base work pending
                  (subst (Written pending) (sym ((progress_eq_iff _ _).0 e)) tt))
                (λ _ _. export_images_keeps base work pending))
            (λ _. export_images_keeps base work base.progress))

  handle_deletion_keeps :
      export.meta.deleted ≡ true → Allowed (Methods.handle_deletion world export)
  unfolding Methods.handle_deletion Methods.run_cleanup_job
  handle_deletion_keeps gone =
      let removed = world.remove_finalizer export finalizer in
      let cleanup = create_job (cleanup_job world.service_account export) in
      Keeps-if Inv (world.contains_finalizer export finalizer) _ _
        (λ has.
          Keeps-bind Inv (write world (Call.create_job cleanup)) _
            (write-Keeps (Call.create_job cleanup) (gone, has, refl))
            (λ _ _.
              Keeps-bind Inv (write world (Call.update_export removed)) _
                (write-Keeps (Call.update_export removed) (inr (gone, has, refl)))
                (λ _ _. Keeps-pure Inv done tt)))
        (λ _. Keeps-pure Inv done tt)

  with_finalizer_keeps : export.meta.deleted ≡ false → Allowed (Methods.with_finalizer world export)
  unfolding Methods.with_finalizer
  with_finalizer_keeps kept =
      let finalized = world.add_finalizer export finalizer in
      Keeps-if Inv (world.contains_finalizer export finalizer) _ _
        (λ _. proceed_keeps export (inl refl) kept)
        (λ without.
          Keeps-bind Inv (write world (Call.update_export finalized)) _
            (write-Keeps (Call.update_export finalized) (inl (kept, without, refl)))
            (λ _ _. proceed_keeps finalized (inr (without, refl)) kept))

  with_export_keeps : Allowed (Methods.with_export world (ok export))
  unfolding Methods.with_export
  with_export_keeps =
      Keeps-if Inv export.meta.deleted _ _ handle_deletion_keeps with_finalizer_keeps

-- What the granted calls keep, a reconciliation of the export keeps.
pub reconcile_keeps :
    (world : World) (request : Key) (export : ClusterImageExport) (I : List Call → Type 0)
    → ((c : Call) (calls : List Call) → Granted world export c → I calls → I (c ∷ calls))
    → (s : Operator) → world.export_at s.calls request ≡ ok export
    → I s.calls
    → I (Methods.reconcile world request s).1.calls
unfolding Methods.reconcile
reconcile_keeps world request export I kept_by s found h =
    let start = record_call (Call.get_export request) s in
    subst (λ r. I (Methods.with_export world r start).1.calls) (sym found)
      ((with_export_keeps world export I kept_by).at start
        (kept_by (Call.get_export request) s.calls tt h)).0

-- A reconciliation of an export that can be read makes granted calls alone, if the calls before it
-- are granted. Where the export is being deleted and has the
-- finalizer, they are the creation of its cleanup job and the removal of the finalizer; where it is not
-- and lacks the finalizer, that is added. Only for an export that is not being deleted and whose status is
-- neither COMPLETED nor FAILED, its status is written, with RUNNING, FAILED, COMPLETED, or PENDING after
-- the empty one, and images are created, each with the fields of the export and of a container and
-- under the hash of these. No image's status is written, and no job or pod is deleted.
pub reconcile-Granted :
    (world : World) (request : Key) (export : ClusterImageExport) (s : Operator)
    → world.export_at s.calls request ≡ ok export
    → All (Granted world export) s.calls
    → All (Granted world export) (Methods.reconcile world request s).1.calls
reconcile-Granted world request export s found h =
    reconcile_keeps world request export (All (Granted world export))
      (λ c calls granted i. (granted, i)) s found h
