-- ===== src/ImageController/Failures/Steps.antt =====
-- Errors of the methods behind `Reconcile` (clusterimage_controller.go).
use kubernetes_images_sync_o.Base.{
  ℕ, ◌+◌, ◌≡◌, ◌≢◌, ◌⊎◌, refl, inl, inr, leb, Option, none, some, List, [], ◌∷◌, ℤ,
}
use kubernetes_images_sync_o.Text.{Text}
use kubernetes_images_sync_o.Errors
use kubernetes_images_sync_o.Errors.{Error, err, not_found}
use kubernetes_images_sync_o.Progress.{Progress, retrying, failed, progress_eq}
use kubernetes_images_sync_o.Api.{ClusterImage, ClusterImageExport}
use kubernetes_images_sync_o.Jobs.{app_label}
use kubernetes_images_sync_o.Cluster.{
  Propagation, Scope, Call, Key, World, Operator, JobObject, background, foreground, of_export,
}
use kubernetes_images_sync_o.Cluster.Op.{
  Op, pure, raise, ◌>>=◌, ◌>>◌, attempt, write, get_export, list_images, list_pods, list_jobs,
}
use kubernetes_images_sync_o.ImageController.Aggregate.{first_restart, summary, new_status}
use kubernetes_images_sync_o.ImageController.Methods
use kubernetes_images_sync_o.Cluster.Stops.{
  Stops, Stops-pure, Stops-if, Stops-bind, Stops-attempt, failure, error_of,
}
use kubernetes_images_sync_o.ImageController.Failures.{MayMiss, Reports, reporting, strict-Stops}

module _ (world : World) where
  -- The write of an object: its error is returned.
  pub write-Stops :
      (c : Call)
      → ¬ MayMiss c
      → ((s : Operator) → failure world s.calls c ≡ error_of (world.written s.calls c))
      → Stops world (reporting world) (write world c)
  write-Stops c strict same = strict-Stops world (λ s. world.written s.calls c) c strict same

  pub status-Stops :
      (w : ClusterImage) → Stops world (reporting world) (write world (Call.update_image_status w))
  status-Stops w = write-Stops (Call.update_image_status w) (λ m. m) (λ s. refl)

  pub add_active-Stops : (d : ℤ) → Stops world (reporting world) (Methods.add_active d)
  add_active-Stops d = record { at = λ s k h. (h, k) }

  ignore-cases :
      (wrap : Error → Error) (e : Error)
      → (e ≡ not_found)
        ⊎ ((e ≢ not_found) × (Methods.ignore_not_found world wrap (err e) ≡ raise (wrap e)))
  ignore-cases wrap not_found = inl refl
  ignore-cases wrap _ = inr ((λ q. cc), refl)

  module _ {B : Type 0} (rest : Op B) (rest_stops : Stops world (reporting world) rest) where
    -- A deletion of a job, whose object may be gone, and what follows.
    deletion-Stops :
        (policy : Propagation) (key : Key) (wrap : Error → Error)
        → ((e : Error) → Reports e (wrap e))
        → Stops world (reporting world) (
            attempt (write world (Call.delete_job policy key)) >>= λ r.
            Methods.ignore_not_found world wrap r >> rest)
    deletion-Stops policy key wrap reports =
        Stops-attempt world (reporting world)
          (λ s. world.written s.calls (Call.delete_job policy key)) (Call.delete_job policy key)
          (λ r. Methods.ignore_not_found world wrap r >> rest) (λ before. tt) (λ s. refl)
          (λ a. rest_stops)
          (λ e. elim (ignore-cases wrap e) [
            | inl gone ↦ inr (gone, tt, rw gone rest_stops)
            | inr (ne, same) ↦ inl (wrap e, rw same refl, λ before h. (e, h, inl ne, reports e))
          ])

  pub cleanup-Stops :
      (job : JobObject) → Stops world (reporting world) (Methods.cleanup_job_and_pods world job)
  unfolding Methods.cleanup_job_and_pods
  cleanup-Stops job =
      let pods = Call.delete_pods job.namespace job.selector in
      deletion-Stops _
        (Stops-attempt world (reporting world) (λ s. world.written s.calls pods) pods
          (Methods.wrap_error world Errors.delete_pods) (λ before. tt) (λ s. refl)
          (λ a. Stops-pure world (reporting world) tt)
          (λ e. inl (Errors.delete_pods e, refl, λ before h. (e, h, inr (λ m. m), inr (inr refl)))))
        background (record { namespace = job.namespace; name = job.name }) Errors.delete_job
        (λ e. inr (inl refl))

  delete_each-Stops :
      (jobs : List JobObject) → Stops world (reporting world) (Methods.delete_each world jobs)
  unfolding Methods.delete_each
  delete_each-Stops [] = Stops-pure world (reporting world) tt
  delete_each-Stops (job ∷ jobs) =
      deletion-Stops (Methods.delete_each world jobs) (delete_each-Stops jobs) foreground
        (record { namespace = job.namespace; name = job.name }) (λ e. e) (λ e. inl refl)

  remove_all-Stops :
      (namespace : Text)
      → Stops world (reporting world) (Methods.remove_all_jobs_and_containers world namespace)
  unfolding Methods.remove_all_jobs_and_containers
  remove_all-Stops namespace =
      Stops-bind world (reporting world) (list_jobs world namespace app_label)
        (Methods.delete_each world)
        (strict-Stops world _ (Call.list_jobs namespace app_label) (λ m. m) (λ s. refl))
        delete_each-Stops

  record_restarts-Stops :
      (w : ClusterImage) (o : Option ℕ)
      → Stops world (reporting world) (Methods.record_restarts world w o)
  unfolding Methods.record_restarts
  record_restarts-Stops w none = Stops-pure world (reporting world) w
  record_restarts-Stops w (some n) =
      let count = w.status.retry_count + n in
      Stops-if world (reporting world) (leb 3 count) _ _
        (Stops-bind world (reporting world) _ _ (status-Stops (Methods.set_status failed count w))
          (λ _.
            Stops-bind world (reporting world) _ _ (remove_all-Stops w.meta.namespace)
              (λ _. Stops-pure world (reporting world) _)))
        (Stops-bind world (reporting world) _ _ (status-Stops (Methods.set_status retrying count w))
          (λ _. Stops-pure world (reporting world) _))

  set_export-Stops :
      (export : ClusterImageExport) (p : Progress)
      → Stops world (reporting world) (Methods.set_export_progress world export p)
  unfolding Methods.set_export_progress
  set_export-Stops export p =
      Stops-if world (reporting world) (progress_eq export.progress p) (pure tt)
        (write world (Call.update_export_status (record export { progress = p })))
        (Stops-pure world (reporting world) tt)
        (write-Stops (Call.update_export_status (record export { progress = p })) (λ m. m)
          (λ s. refl))

  pub export_read-Stops : (key : Key) → Stops world (reporting world) (get_export world key)
  export_read-Stops key = strict-Stops world _ (Call.get_export key) (λ m. m) (λ s. refl)

  pub list_images-Stops : (scope : Scope) → Stops world (reporting world) (list_images world scope)
  list_images-Stops scope = strict-Stops world _ (Call.list_images scope) (λ m. m) (λ s. refl)

  update_export-Stops :
      (w : ClusterImage)
      → Stops world (reporting world) (Methods.update_cluster_image_export_status world w)
  unfolding Methods.update_cluster_image_export_status
  update_export-Stops w =
      let scope = of_export w.meta.namespace w.spec.export_name in
      Stops-bind world (reporting world) _ _ (export_read-Stops (Methods.export_key w)) (λ export.
        Stops-bind world (reporting world) _ _ (list_images-Stops scope) (λ items.
          Stops-bind world (reporting world) _ _
            (set_export-Stops export (new_status (summary items)))
            (λ _. Stops-pure world (reporting world) _)))

  pub finish_running-Stops :
      (job : JobObject) (w : ClusterImage)
      → Stops world (reporting world) (Methods.finish_running world job w)
  unfolding Methods.finish_running Methods.handle_job_restarts
  finish_running-Stops job w =
      Stops-bind world (reporting world) _ _
        (Stops-bind world (reporting world) (list_pods world job.namespace job.selector) _
          (strict-Stops world _ (Call.list_pods job.namespace job.selector) (λ m. m) (λ s. refl))
          (λ pods. record_restarts-Stops w (first_restart pods)))
        (λ restarted.
          Stops-bind world (reporting world) _ _ (status-Stops restarted)
            (λ _. update_export-Stops restarted))
