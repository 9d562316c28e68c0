-- ===== src/ImageController/Restarts.antt =====
-- Lemmas on the methods that follow the job of a RUNNING or RETRYING image (clusterimage_controller.go).
use kubernetes_images_sync_o.Base.{ℕ, ◌≡◌, ◌+◌, ◌≤◌, List, [], ◌∷◌, arith, Option, none, some, leb}
use kubernetes_images_sync_o.Errors
use kubernetes_images_sync_o.Errors.{Result, ok, err, not_found}
use kubernetes_images_sync_o.Progress.{Progress, progress_eq, retrying, failed}
use kubernetes_images_sync_o.Api.{ClusterImage, ClusterImageExport}
use kubernetes_images_sync_o.Text.{Text}
use kubernetes_images_sync_o.Jobs.{app_label}
use kubernetes_images_sync_o.Cluster.{
  Operator, Key, of_export, background, Call, JobObject, World, foreground,
}
use kubernetes_images_sync_o.Cluster.Op.{
  write, attempt, pure, get_export, list_images, list_pods, list_jobs,
}
use kubernetes_images_sync_o.Cluster.Keeps.{Keeps, Keeps-pure, Keeps-bind, Keeps-if, Keeps-attempt}
use kubernetes_images_sync_o.ImageController.Aggregate.{first_restart, summary, new_status}
use kubernetes_images_sync_o.ImageController.Methods
use kubernetes_images_sync_o.ImageController.Permitted.{
  IsActive, Fits, Permitted, IsKept, call-Keeps, write-Keeps,
}

module _ (image : ClusterImage) (I : Operator → Type 0) (kept : IsKept image I) (world : World)
    (active : IsActive image.status.progress) where
  ignore-Keeps :
      (wrap : Errors.Error → Errors.Error) (r : Result (Unit {0}))
      → Keeps I (λ _. Unit {0}) (Methods.ignore_not_found world wrap r)
  ignore-Keeps wrap r = record { at = λ s h. ground arith }

  wrap-Keeps :
      (wrap : Errors.Error → Errors.Error) (r : Result (Unit {0}))
      → Keeps I (λ _. Unit {0}) (Methods.wrap_error world wrap r)
  wrap-Keeps wrap r = record { at = λ s h. ground arith }

  deletion-Keeps :
      (c : Call)
      → Permitted image c
      → Keeps I (λ r. (a : Unit {0}) → r ≡ ok a → Unit {0}) (attempt (write world c))
  deletion-Keeps c h = Keeps-attempt I _ (write-Keeps image I world kept c h)

  pub cleanup-Keeps :
      (job : JobObject) → Keeps I (λ _. Unit {0}) (Methods.cleanup_job_and_pods world job)
  unfolding Methods.cleanup_job_and_pods
  cleanup-Keeps job =
      let key : Key = record { namespace = job.namespace; name = job.name } in
      Keeps-bind I (attempt (write world (Call.delete_job background key))) _
        (deletion-Keeps (Call.delete_job background key) active)
        (λ r _.
          Keeps-bind I (Methods.ignore_not_found world Errors.delete_job r) _
            (ignore-Keeps Errors.delete_job r)
            (λ _ _.
              Keeps-bind I (attempt (write world (Call.delete_pods job.namespace job.selector))) _
                (deletion-Keeps (Call.delete_pods job.namespace job.selector) active)
                (λ answer _. wrap-Keeps Errors.delete_pods answer)))

  delete_each-Keeps :
      (jobs : List JobObject) → Keeps I (λ _. Unit {0}) (Methods.delete_each world jobs)
  unfolding Methods.delete_each
  delete_each-Keeps [] = Keeps-pure I tt tt
  delete_each-Keeps (job ∷ jobs) =
      let call =
        Call.delete_job foreground (record { namespace = job.namespace; name = job.name }) in
      Keeps-bind I (attempt (write world call)) _
        (Keeps-attempt I _ (write-Keeps image I world kept call active))
        (λ r _.
          Keeps-bind I (Methods.ignore_not_found world (λ e. e) r) _ (ignore-Keeps (λ e. e) r)
            (λ _ _. delete_each-Keeps jobs))

  -- A status that is written later in the same run.
  pub Fits-retrying :
      (w : ClusterImage) (n : ℕ)
      → (Fits image) w
      → (Fits image) (Methods.set_status retrying (w.status.retry_count + n) w)
  Fits-retrying w n fits = ground arith

  Fits-failed :
      (w : ClusterImage) (n : ℕ)
      → (Fits image) w
      → 3 ≤ w.status.retry_count + n
      → (Fits image) (Methods.set_status failed (w.status.retry_count + n) w)
  Fits-failed w n fits h = ground arith

  remove_all-Keeps :
      (namespace : Text)
      → Keeps I (λ _. Unit {0}) (Methods.remove_all_jobs_and_containers world namespace)
  unfolding Methods.remove_all_jobs_and_containers
  remove_all-Keeps namespace =
      Keeps-bind I (list_jobs world namespace app_label) _
        (call-Keeps image I kept _ (Call.list_jobs namespace app_label) tt)
        (λ jobs _. delete_each-Keeps jobs)

  record_restarts-Keeps :
      (w : ClusterImage) (o : Option ℕ)
      → (Fits image) w
      → Keeps I (Fits image) (Methods.record_restarts world w o)
  unfolding Methods.record_restarts
  record_restarts-Keeps w none fits = Keeps-pure I w fits
  record_restarts-Keeps w (some n) fits =
      let count = w.status.retry_count + n in
      let out = Methods.set_status failed count w in
      let again = Methods.set_status retrying count w in
      Keeps-if I (leb 3 count) _ _
        (λ e.
          let fits_out = Fits-failed w n fits (ground arith) in
          Keeps-bind I (write world (Call.update_image_status out)) _
            (write-Keeps image I world kept (Call.update_image_status out) fits_out)
            (λ _ _.
              Keeps-bind I (Methods.remove_all_jobs_and_containers world w.meta.namespace) _
                (remove_all-Keeps w.meta.namespace) (λ _ _. Keeps-pure I out fits_out)))
        (λ e.
          let fits_again = Fits-retrying w n fits in
          Keeps-bind I (write world (Call.update_image_status again)) _
            (write-Keeps image I world kept (Call.update_image_status again) fits_again)
            (λ _ _. Keeps-pure I again fits_again))

  restarts-Keeps :
      (job : JobObject) (w : ClusterImage)
      → (Fits image) w
      → Keeps I (Fits image) (Methods.handle_job_restarts world job w)
  unfolding Methods.handle_job_restarts
  restarts-Keeps job w fits =
      Keeps-bind I (list_pods world job.namespace job.selector) _
        (call-Keeps image I kept _ (Call.list_pods job.namespace job.selector) tt)
        (λ pods _. record_restarts-Keeps w (first_restart pods) fits)

  set_export-Keeps :
      (export : ClusterImageExport) (p : Progress)
      → Keeps I (λ _. Unit {0}) (Methods.set_export_progress world export p)
  unfolding Methods.set_export_progress
  set_export-Keeps export p =
      Keeps-if I (progress_eq export.progress p) (pure tt)
        (write world (Call.update_export_status (record export { progress = p })))
        (λ _. Keeps-pure I tt tt)
        (λ _.
          write-Keeps image I world kept
            (Call.update_export_status (record export { progress = p })) active)

  update_export-Keeps :
      (w : ClusterImage)
      → Keeps I (λ _. Unit {0}) (Methods.update_cluster_image_export_status world w)
  unfolding Methods.update_cluster_image_export_status
  update_export-Keeps w =
      let key = Methods.export_key w in
      let scope = of_export w.meta.namespace w.spec.export_name in
      Keeps-bind I (get_export world key) _ (call-Keeps image I kept _ (Call.get_export key) tt)
        (λ export _.
          Keeps-bind I (list_images world scope) _
            (call-Keeps image I kept _ (Call.list_images scope) tt)
            (λ items _.
              Keeps-bind I (Methods.set_export_progress world export (new_status (summary items))) _
                (set_export-Keeps export (new_status (summary items))) (λ _ _. Keeps-pure I _ tt)))

  pub finish_running-Keeps :
      (job : JobObject) (w : ClusterImage)
      → (Fits image) w
      → Keeps I (λ _. Unit {0}) (Methods.finish_running world job w)
  unfolding Methods.finish_running
  finish_running-Keeps job w fits =
      Keeps-bind I (Methods.handle_job_restarts world job w) _ (restarts-Keeps job w fits)
        (λ restarted fits'.
          Keeps-bind I (write world (Call.update_image_status restarted)) _
            (write-Keeps image I world kept (Call.update_image_status restarted) fits')
            (λ _ _. update_export-Keeps restarted))
