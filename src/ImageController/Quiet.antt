-- ===== src/ImageController/Quiet.antt =====
-- The methods of `ClusterImageReconciler` that leave alone what no call changes: for each property of
-- the operator that one more call keeps, the method keeps it.
use kubernetes_images_sync_o.Base.{◌+◌, leb, Option, none, some, List, [], ◌∷◌}
use kubernetes_images_sync_o.Text.{Text}
use kubernetes_images_sync_o.Errors
use kubernetes_images_sync_o.Errors.{Result, ok, err, not_found}
use kubernetes_images_sync_o.Progress.{Progress, retrying, failed, progress_eq}
use kubernetes_images_sync_o.Api.{ClusterImage, ClusterImageExport}
use kubernetes_images_sync_o.Jobs.{app_label}
use kubernetes_images_sync_o.Cluster.{
  Call, Key, World, Operator, JobObject, background, foreground, of_export,
}
use kubernetes_images_sync_o.Cluster.Op.{
  attempt, write, pure, get_export, list_images, list_pods, list_jobs, record_call,
}
use kubernetes_images_sync_o.Cluster.Keeps.{
  Keeps, Keeps-pure, Keeps-raise, Keeps-call, Keeps-bind, Keeps-if, Keeps-attempt,
}
use kubernetes_images_sync_o.ImageController.Aggregate.{first_restart, summary, new_status}
use kubernetes_images_sync_o.ImageController.Methods
use kubernetes_images_sync_o.ImageController.Methods

module _ (world : World) (I : Operator → Type 0)
    (closed : (c : Call) (s : Operator) → I s → I (record_call c s)) where
  abbrev pub Quiet : {A : Type 0} → (Operator → Result A × Operator) → Type 0
  Quiet m = Keeps I (λ _. Unit {0}) m

  pub write-Quiet : (c : Call) → Quiet (write world c)
  write-Quiet c = Keeps-call I _ c (closed _) (λ _. tt)

  ignore-Quiet :
      (wrap : Errors.Error → Errors.Error) (r : Result (Unit {0}))
      → Quiet (Methods.ignore_not_found world wrap r)
  ignore-Quiet wrap (ok t) = Keeps-pure I tt tt
  ignore-Quiet wrap (err not_found) = Keeps-pure I tt tt
  ignore-Quiet wrap (err e) = Keeps-raise I (wrap e)

  wrap-Quiet :
      (wrap : Errors.Error → Errors.Error) (r : Result (Unit {0}))
      → Quiet (Methods.wrap_error world wrap r)
  wrap-Quiet wrap (ok t) = Keeps-pure I tt tt
  wrap-Quiet wrap (err e) = Keeps-raise I (wrap e)

  pub cleanup-Quiet : (job : JobObject) → Quiet (Methods.cleanup_job_and_pods world job)
  unfolding Methods.cleanup_job_and_pods
  cleanup-Quiet job =
      let key : Key = record { namespace = job.namespace; name = job.name } in
      let deletion = Call.delete_job background key in
      let pods = Call.delete_pods job.namespace job.selector in
      Keeps-bind I (attempt (write world deletion)) _ (Keeps-attempt I _ (write-Quiet deletion))
        (λ r _.
          Keeps-bind I (Methods.ignore_not_found world Errors.delete_job r) _
            (ignore-Quiet Errors.delete_job r)
            (λ _ _.
              Keeps-bind I (attempt (write world pods)) _ (Keeps-attempt I _ (write-Quiet pods))
                (λ answer _. wrap-Quiet Errors.delete_pods answer)))

  delete_each-Quiet : (jobs : List JobObject) → Quiet (Methods.delete_each world jobs)
  unfolding Methods.delete_each
  delete_each-Quiet [] = Keeps-pure I tt tt
  delete_each-Quiet (job ∷ jobs) =
      let call =
        Call.delete_job foreground (record { namespace = job.namespace; name = job.name }) in
      Keeps-bind I (attempt (write world call)) _ (Keeps-attempt I _ (write-Quiet call)) (λ r _.
        Keeps-bind I (Methods.ignore_not_found world (λ e. e) r) _ (ignore-Quiet (λ e. e) r)
          (λ _ _. delete_each-Quiet jobs))

  remove_all-Quiet :
      (namespace : Text) → Quiet (Methods.remove_all_jobs_and_containers world namespace)
  unfolding Methods.remove_all_jobs_and_containers
  remove_all-Quiet namespace =
      Keeps-bind I (list_jobs world namespace app_label) _
        (Keeps-call I {R = λ _. Unit {0}} _ (Call.list_jobs namespace app_label) (closed _)
          (λ _. tt))
        (λ jobs _. delete_each-Quiet jobs)

  record_restarts-Quiet :
      (w : ClusterImage) (o : Option _) → Quiet (Methods.record_restarts world w o)
  unfolding Methods.record_restarts
  record_restarts-Quiet w none = Keeps-pure I w tt
  record_restarts-Quiet w (some n) =
      let count = w.status.retry_count + n in
      Keeps-if I (leb 3 count) _ _
        (λ _.
          Keeps-bind I (write world (Call.update_image_status (Methods.set_status failed count w)))
            _ (write-Quiet _)
            (λ _ _.
              Keeps-bind I (Methods.remove_all_jobs_and_containers world w.meta.namespace) _
                (remove_all-Quiet w.meta.namespace) (λ _ _. Keeps-pure I _ tt)))
        (λ _.
          Keeps-bind I
            (write world (Call.update_image_status (Methods.set_status retrying count w))) _
            (write-Quiet _) (λ _ _. Keeps-pure I _ tt))

  set_export-Quiet :
      (export : ClusterImageExport) (p : Progress)
      → Quiet (Methods.set_export_progress world export p)
  unfolding Methods.set_export_progress
  set_export-Quiet export p =
      Keeps-if I (progress_eq export.progress p) (pure tt)
        (write world (Call.update_export_status (record export { progress = p })))
        (λ _. Keeps-pure I tt tt)
        (λ _. write-Quiet (Call.update_export_status (record export { progress = p })))

  pub update_export-Quiet :
      (w : ClusterImage) → Quiet (Methods.update_cluster_image_export_status world w)
  unfolding Methods.update_cluster_image_export_status
  update_export-Quiet w =
      let key = Methods.export_key w in
      let scope = of_export w.meta.namespace w.spec.export_name in
      Keeps-bind I (get_export world key) _
        (Keeps-call I {R = λ _. Unit {0}} _ (Call.get_export key) (closed _) (λ _. tt))
        (λ export _.
          Keeps-bind I (list_images world scope) _
            (Keeps-call I {R = λ _. Unit {0}} _ (Call.list_images scope) (closed _) (λ _. tt))
            (λ items _.
              Keeps-bind I (Methods.set_export_progress world export (new_status (summary items))) _
                (set_export-Quiet export (new_status (summary items))) (λ _ _. Keeps-pure I _ tt)))

  pub finish_running-Quiet :
      (job : JobObject) (w : ClusterImage) → Quiet (Methods.finish_running world job w)
  unfolding Methods.finish_running Methods.handle_job_restarts
  finish_running-Quiet job w =
      Keeps-bind I (Methods.handle_job_restarts world job w) _
        (Keeps-bind I (list_pods world job.namespace job.selector) _
          (Keeps-call I {R = λ _. Unit {0}} _ (Call.list_pods job.namespace job.selector) (closed _)
            (λ _. tt))
          (λ pods _. record_restarts-Quiet w (first_restart pods)))
        (λ restarted _.
          Keeps-bind I (write world (Call.update_image_status restarted)) _ (write-Quiet _)
            (λ _ _. update_export-Quiet restarted))
