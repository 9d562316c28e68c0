-- ===== src/ImageController/Lifecycle.antt =====
-- What one reconciliation of an image may write: the life cycle of an image's status.
use kubernetes_images_sync_o.Base.{
  pos, ◌+ℤ◌, leb_ℤ, ◌&&◌, subst, ◌≡◌, refl, sym, inl, inr, Bool-cases, All, arith,
}
use kubernetes_images_sync_o.Errors.{ok}
use kubernetes_images_sync_o.Progress.{
  Progress, unset, pending, retrying, running, present, progress_eq,
}
use kubernetes_images_sync_o.Progress.Laws.{progress_eq_iff}
use kubernetes_images_sync_o.Api.{ClusterImage, ClusterImageExport}
use kubernetes_images_sync_o.Jobs.{create_job}
use kubernetes_images_sync_o.Cluster.{everywhere, Call, Key, World, Operator}
use kubernetes_images_sync_o.Cluster.Op.{pure, list_images, record_call, write, get_export}
use kubernetes_images_sync_o.Cluster.Keeps.{Keeps, AllCalls, Keeps-pure, Keeps-bind, Keeps-if}
use kubernetes_images_sync_o.ImageController.Backup.{backup_job}
use kubernetes_images_sync_o.ImageController.Methods
use kubernetes_images_sync_o.ImageController.Permitted.{
  IsActive, Permitted, IsKept, AllCalls-IsKept, call-Keeps, write-Keeps,
}
use kubernetes_images_sync_o.ImageController.Running.{handle_running-Keeps}

module _ (image : ClusterImage) (I : Operator → Type 0) (kept : IsKept image I)
    (world : World) where
  check-Keeps : Keeps I (λ _. Unit {0}) (Methods.check_image_exists world image)
  unfolding Methods.check_image_exists
  check-Keeps =
      Keeps-bind I (list_images world everywhere) _
        (call-Keeps image I kept _ (Call.list_images everywhere) tt) (λ items _. Keeps-pure I _ tt)

  -- The image that `createBackupJob` returns is the RUNNING one.
  create_backup_job-Keeps :
      (export : ClusterImageExport)
      → image.status.progress ≡ pending
      → Keeps I
          (λ created. created ≡ Methods.set_progress running image)
          (Methods.create_backup_job world image export)
  unfolding Methods.create_backup_job create_job backup_job
  create_backup_job-Keeps export p =
      let started = Methods.set_progress running image in
      let job = Call.create_job (create_job (backup_job world.service_account image export)) in
      Keeps-bind I (write world job) _ (write-Keeps image I world kept job (p, refl, refl)) (λ _ _.
        Keeps-bind I (write world (Call.update_image_status started)) _
          (write-Keeps image I world kept (Call.update_image_status started) (ground arith))
          (λ _ _. Keeps-pure I started refl))

  start-Keeps :
      image.status.progress ≡ pending → Keeps I (λ _. Unit {0}) (Methods.start_backup world image)
  unfolding Methods.start_backup
  start-Keeps p =
      Keeps-bind I (get_export world (Methods.export_key image)) _
        (call-Keeps image I kept _ (Call.get_export (Methods.export_key image)) tt)
        (λ export _.
          Keeps-bind I (Methods.create_backup_job world image export) _
            (create_backup_job-Keeps export p)
            (λ created same.
              let started = Methods.set_progress running created in
              Keeps-bind I (write world (Call.update_image_status started)) _
                (write-Keeps image I world kept (Call.update_image_status started) (ground arith))
                (λ _ _.
                  Keeps-bind I (Methods.add_active (pos 1)) (λ _. pure Methods.requeue)
                    (record { at = λ s h. (kept.counted s (s.active_jobs +ℤ pos 1) h, λ _ _. tt) })
                    (λ _ _. Keeps-pure I Methods.requeue tt))))

  handle_pending-Keeps :
      image.status.progress ≡ pending → Keeps I (λ _. Unit {0}) (Methods.handle_pending world image)
  unfolding Methods.handle_pending Methods.mark_present
  handle_pending-Keeps p =
      let present_image = Methods.set_progress present image in
      Keeps-bind I (Methods.check_image_exists world image) _ check-Keeps (λ exists _.
        Keeps-if I exists (Methods.mark_present world image) (Methods.start_backup world image)
          (λ _.
            Keeps-bind I (write world (Call.update_image_status present_image)) _
              (write-Keeps image I world kept (Call.update_image_status present_image)
                (ground arith))
              (λ _ _. Keeps-pure I _ tt))
          (λ _. start-Keeps p))

  process-Keeps :
      (p : Progress)
      → image.status.progress ≡ p
      → Keeps I (λ _. Unit {0}) (Methods.process world p image)
  unfolding Methods.process
  process-Keeps pending e = handle_pending-Keeps e
  process-Keeps running e = handle_running-Keeps image I kept world (subst IsActive (sym e) tt)
  process-Keeps retrying e = handle_running-Keeps image I kept world (subst IsActive (sym e) tt)
  process-Keeps _ e = Keeps-pure I _ tt

  admit-Keeps : image.status.progress ≡ unset → Keeps I (λ _. Unit {0}) (Methods.admit world image)
  unfolding Methods.admit
  admit-Keeps e =
      let pending_image = Methods.set_progress pending image in
      Keeps-bind I (write world (Call.update_image_status pending_image)) _
        (write-Keeps image I world kept (Call.update_image_status pending_image) (ground arith))
        (λ _ _. Keeps-pure I _ tt)

  reconcile_image-Keeps : Keeps I (λ _. Unit {0}) (Methods.reconcile_image world image)
  unfolding Methods.reconcile_image
  reconcile_image-Keeps = record {
    at = λ s h. elim (Bool-cases (progress_eq image.status.progress unset)) [
      | inl e ↦ rw e ((admit-Keeps ((progress_eq_iff _ _).0 e)).at s h)
      | inr e ↦
          rw e
            (elim (Bool-cases (
              leb_ℤ s.max_parallel_jobs s.active_jobs
              && progress_eq image.status.progress pending)) [
                | inl full ↦ rw full (h, λ _ _. tt)
                | inr room ↦ rw room ((process-Keeps image.status.progress refl).at s h)
              ])
    ];
  }

  with_image-Keeps : Keeps I (λ _. Unit {0}) (Methods.with_image world (ok image))
  unfolding Methods.with_image
  with_image-Keeps =
      Keeps-bind I (get_export world (Methods.export_key image)) _
        (call-Keeps image I kept _ (Call.get_export (Methods.export_key image)) tt)
        (λ export _. record {
          at = λ s h.
              reconcile_image-Keeps.at
                (record s { max_parallel_jobs = export.spec.max_concurrent_jobs })
                (kept.limited s export.spec.max_concurrent_jobs h);
        })

-- What permitted calls and changes of the counters keep, a reconciliation of the image keeps.
pub reconcile-keeps :
    (image : ClusterImage) (I : Operator → Type 0)
    → IsKept image I
    → (world : World) (request : Key) (s : Operator) → world.image_at s.calls request ≡ ok image
    → I s
    → I (Methods.reconcile world request s).1
unfolding Methods.reconcile
reconcile-keeps image I kept world request s found h =
    let start = record_call (Call.get_image request) s in
    subst (λ r. I (Methods.with_image world r start).1) (sym found)
      ((with_image-Keeps image I kept world).at start
        (kept.called (Call.get_image request) s tt h)).0

-- A reconciliation of an image that can be read makes permitted calls alone, if the calls before it
-- are permitted. Of the image that it read it writes only the status,
-- and only one that may follow the one read: PENDING from the empty one; PRESENT or RUNNING from
-- PENDING, with the retry count kept; from RUNNING or RETRYING the same status, RETRYING, FAILED,
-- COMPLETED or PENDING, where the count is kept except that RETRYING and FAILED may raise it, and
-- FAILED has a count of 3 or more; nothing from any other status. A job is created
-- only for a PENDING image, under its name; jobs and pods are deleted and the export's status is written
-- only for a RUNNING or RETRYING one. Neither images are created nor exports changed.
pub reconcile-Permitted :
    (world : World) (request : Key) (image : ClusterImage) (s : Operator)
    → world.image_at s.calls request ≡ ok image
    → All (Permitted image) s.calls
    → All (Permitted image) (Methods.reconcile world request s).1.calls
reconcile-Permitted world request image s =
    reconcile-keeps image (AllCalls (Permitted image)) (AllCalls-IsKept image) world request s
