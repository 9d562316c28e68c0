-- ===== src/ImageController/Limit.antt =====
-- The number of active jobs over many reconciliations.
use kubernetes_images_sync_o.Base.{
  ◌+◌, ◌≡◌, inl, inr, ℤ, negsuc, ◌+ℤ◌, ◌≤ℤ◌, leb_ℤ, ltb, ◌&&◌, Bool-cases, List, [], ◌∷◌, arith,
}
use kubernetes_images_sync_o.Errors.{Result, ok, err, not_found}
use kubernetes_images_sync_o.Progress.{
  Progress, pending, running, retrying, failed, unset, progress_eq, success,
}
use kubernetes_images_sync_o.Api.{ClusterImage, ClusterImageExport}
use kubernetes_images_sync_o.Cluster.{Call, Key, World, Operator, JobObject}
use kubernetes_images_sync_o.Cluster.Op.{
  pure, ◌>>◌, attempt, write, get_image, get_export, get_job, record_call,
}
use kubernetes_images_sync_o.Cluster.Keeps.{
  Keeps, Keeps-pure, Keeps-raise, Keeps-call, Keeps-bind, Keeps-if, Keeps-attempt,
}
use kubernetes_images_sync_o.ImageController.Backup.{job_name}
use kubernetes_images_sync_o.ImageController.Methods
use kubernetes_images_sync_o.ImageController.Quiet.{
  cleanup-Quiet, finish_running-Quiet, write-Quiet,
}
use kubernetes_images_sync_o.ImageController.Slots.{SlotChange, reconcile-SlotChange}

-- No export sets a limit above this one.
abbrev pub LimitsAtMost : ℤ → World → Type 0
LimitsAtMost limit world =
    (calls : List Call) (key : Key) (export : ClusterImageExport)
    → world.export_at calls key ≡ ok export
    → export.spec.max_concurrent_jobs ≤ℤ limit

-- The limit in force is at most this one.
abbrev Limited : ℤ → Operator → Type 0
Limited limit s = s.max_parallel_jobs ≤ℤ limit

module _ (world : World) (limit : ℤ) where
  abbrev I : Operator → Type 0
  I = Limited limit

  abbrev Bounded : {A : Type 0} → (Operator → Result A × Operator) → Type 0
  Bounded m = Keeps I (λ _. Unit {0}) m

  closed : (c : Call) (s : Operator) → I s → I (record_call c s)
  closed c s h = h

  add_active-Bounded : (d : ℤ) → Bounded (Methods.add_active d)
  add_active-Bounded d = record { at = λ s h. (h, λ _ _. tt) }

  handle_pending-Bounded : (image : ClusterImage) → Bounded (Methods.handle_pending world image)
  unfolding Methods.handle_pending
  handle_pending-Bounded image = record { at = λ s h. ground arith }

  end_job-Bounded :
      (job : JobObject) (w : ClusterImage)
      → Bounded (
          Methods.add_active (negsuc 0)
          >> (write world (Call.update_image_status w)
              >> (Methods.cleanup_job_and_pods world job >> Methods.finish_running world job w)))
  end_job-Bounded job w =
      Keeps-bind I (Methods.add_active (negsuc 0)) _ (add_active-Bounded (negsuc 0)) (λ _ _.
        Keeps-bind I (write world (Call.update_image_status w)) _
          (write-Quiet world I closed (Call.update_image_status w))
          (λ _ _.
            Keeps-bind I (Methods.cleanup_job_and_pods world job) _
              (cleanup-Quiet world I closed job)
              (λ _ _. finish_running-Quiet world I closed job w)))

  with_job-Bounded :
      (image : ClusterImage) (found : Result JobObject)
      → Bounded (Methods.with_job world image found)
  unfolding Methods.with_job Methods.job_succeeded Methods.job_failed Methods.job_retried
      Methods.job_lost
  with_job-Bounded image (err not_found) =
      let back = Call.update_image_status (Methods.set_progress pending image) in
      Keeps-bind I (write world back) _ (write-Quiet world I closed back) (λ _ _. Keeps-pure I _ tt)
  with_job-Bounded image (err e) = Keeps-raise I e
  with_job-Bounded image (ok job) =
      let again =
        Call.update_image_status
          (Methods.set_status retrying (image.status.retry_count + 1) image) in
      Keeps-if I (ltb 0 job.succeeded) _ _
        (λ _. end_job-Bounded job (Methods.set_progress success image))
        (λ _.
          Keeps-if I (ltb 0 job.failed) _ _
            (λ _.
              Keeps-if I (ltb image.status.retry_count 3) _ _
                (λ _. Keeps-bind I (write world again) _ (write-Quiet world I closed again) (λ _ _.
                  Keeps-bind I (Methods.cleanup_job_and_pods world job) _
                    (cleanup-Quiet world I closed job)
                    (λ _ _.
                      Keeps-bind I (Methods.add_active (negsuc 0)) (λ _. pure Methods.requeue)
                        (add_active-Bounded (negsuc 0)) (λ _ _. Keeps-pure I Methods.requeue tt))))
                (λ _. end_job-Bounded job (Methods.set_progress failed image)))
            (λ _. finish_running-Quiet world I closed job image))

  handle_running-Bounded : (image : ClusterImage) → Bounded (Methods.handle_running world image)
  unfolding Methods.handle_running
  handle_running-Bounded image =
      let key : Key = record { namespace = image.meta.namespace; name = job_name image } in
      Keeps-bind I (attempt (get_job world key)) _
        (Keeps-attempt I _ (
          Keeps-call I {R = λ _. Unit {0}} _ (Call.get_job key) (closed (Call.get_job key))
            (λ _. tt)))
        (λ found _. with_job-Bounded image found)

  process-Bounded : (p : Progress) (image : ClusterImage) → Bounded (Methods.process world p image)
  unfolding Methods.process
  process-Bounded pending image = handle_pending-Bounded image
  process-Bounded running image = handle_running-Bounded image
  process-Bounded retrying image = handle_running-Bounded image
  process-Bounded _ image = Keeps-pure I Methods.done tt

  admit-Bounded : (image : ClusterImage) → Bounded (Methods.admit world image)
  unfolding Methods.admit
  admit-Bounded image = record { at = λ s h. ground arith }

  reconcile_image-Bounded : (image : ClusterImage) → Bounded (Methods.reconcile_image world image)
  unfolding Methods.reconcile_image
  reconcile_image-Bounded image = record {
    at = λ s h. elim (Bool-cases (progress_eq image.status.progress unset)) [
      | inl e ↦ rw e ((admit-Bounded image).at s h)
      | inr e ↦
          rw e
            (elim (Bool-cases (
              leb_ℤ s.max_parallel_jobs s.active_jobs
              && progress_eq image.status.progress pending)) [
                | inl full ↦ rw full (h, λ _ _. tt)
                | inr room ↦ rw room ((process-Bounded image.status.progress image).at s h)
              ])
    ];
  }

  with_image-Bounded :
      LimitsAtMost limit world
      → (found : Result ClusterImage) → Bounded (Methods.with_image world found)
  unfolding Methods.with_image
  with_image-Bounded limits (ok image) =
      let key = Methods.export_key image in
      Keeps-bind I (get_export world key) _
        (record { at = λ s h. (h, λ export e. limits s.calls key export e) })
        (λ export below. record {
          at = λ s h.
              (reconcile_image-Bounded image).at
                (record s { max_parallel_jobs = export.spec.max_concurrent_jobs }) below;
        })
  with_image-Bounded limits (err not_found) = Keeps-pure I Methods.done tt
  with_image-Bounded limits (err e) = Keeps-raise I e

  reconcile-Bounded :
      LimitsAtMost limit world → (request : Key) → Bounded (Methods.reconcile world request)
  unfolding Methods.reconcile
  reconcile-Bounded limits request =
      Keeps-bind I (attempt (get_image world request)) _
        (Keeps-attempt I _ (
          Keeps-call I {R = λ _. Unit {0}} _ (Call.get_image request)
            (closed (Call.get_image request)) (λ _. tt)))
        (λ found _. with_image-Bounded limits found)

-- Reconciliations one after the other, whatever they return.
abbrev pub reconcile_all : World → List Key → Operator → Operator
reconcile_all world [] s = s
reconcile_all world (request ∷ requests) s =
    reconcile_all world requests (Methods.reconcile world request s).1

-- Neither the active jobs nor the limit in force are above this one.
abbrev pub IsWithin : ℤ → Operator → Type 0
IsWithin limit s = (s.active_jobs ≤ℤ limit) × (s.max_parallel_jobs ≤ℤ limit)

lowered-below : (a limit : ℤ) → a ≤ℤ limit → a +ℤ negsuc 0 ≤ℤ limit
unfolding ◌+ℤ◌
lowered-below a limit h = ground arith

below-trans : (a b c : ℤ) → a ≤ℤ b → b ≤ℤ c → a ≤ℤ c
below-trans a b c h k = ground arith

SlotChange-within :
    (world : World) (limit : ℤ) (request : Key) (s s' : Operator)
    → LimitsAtMost limit world
    → SlotChange world request s s'
    → s.active_jobs ≤ℤ limit
    → s'.active_jobs ≤ℤ limit
SlotChange-within world limit request s s' limits (inl e) h = rw e h
SlotChange-within world limit request s s' limits (inr (inl e)) h =
    rw e (lowered-below s.active_jobs limit h)
SlotChange-within world limit request s s' limits
      (inr (inr (e, (own, (image, export, found, known, same), below)))) h =
    below-trans s'.active_jobs own limit below
      (rw same (limits (Call.get_image request ∷ s.calls) (Methods.export_key image) export known))

-- As long as no export sets a limit above a bound, and `ActiveJobs` and the limit in force are not
-- above it at the start, any number of reconciliations of any images, in any order and however the
-- cluster answers them, leaves both at or below that bound.
pub reconcile_all-IsWithin :
    (world : World) (limit : ℤ) (requests : List Key) (s : Operator)
    → LimitsAtMost limit world
    → IsWithin limit s
    → IsWithin limit (reconcile_all world requests s)
reconcile_all-IsWithin world limit [] s limits h = h
reconcile_all-IsWithin world limit (request ∷ requests) s limits (a, m) =
    let s' = (Methods.reconcile world request s).1 in
    let m' = ((reconcile-Bounded world limit limits request).at s m).0 in
    reconcile_all-IsWithin world limit requests s' limits (
      SlotChange-within world limit request s s' limits (reconcile-SlotChange world request s) a,
      m',
    )
