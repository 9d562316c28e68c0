-- ===== src/ImageController/Slots.antt =====
-- `ActiveJobs`: how a reconciliation changes the number of jobs that count against the limit.
use kubernetes_images_sync_o.Base.{
  ◌∷◌, ◌+◌, ◌≡◌, ◌⊎◌, refl, inl, inr, ℤ, pos, negsuc, ◌+ℤ◌, ◌≤ℤ◌, leb_ℤ, ltb, false, ◌&&◌,
  Bool-cases, arith,
}
use kubernetes_images_sync_o.Text.{text_eq}
use kubernetes_images_sync_o.Errors.{Result, ok, err, not_found}
use kubernetes_images_sync_o.Progress.{
  Progress, pending, running, retrying, failed, unset, progress_eq, success,
}
use kubernetes_images_sync_o.Api.{ClusterImage, ClusterImageExport}
use kubernetes_images_sync_o.Cluster.{Call, Key, World, Operator, JobObject}
use kubernetes_images_sync_o.Cluster.Op.{continue, ◌>>◌, write, record_call}
use kubernetes_images_sync_o.Cluster.Keeps.{Keeps-bind}
use kubernetes_images_sync_o.ImageController.Backup.{job_name}
use kubernetes_images_sync_o.ImageController.Methods
use kubernetes_images_sync_o.ImageController.Methods
use kubernetes_images_sync_o.ImageController.Quiet.{
  cleanup-Quiet, finish_running-Quiet, write-Quiet,
}

-- The two counters have these values.
abbrev Counters : ℤ → ℤ → Operator → Type 0
Counters active limit s = (s.active_jobs ≡ active) × (s.max_parallel_jobs ≡ limit)

Counters-closed :
    (active limit : ℤ) (c : Call) (s : Operator)
    → Counters active limit s
    → Counters active limit (record_call c s)
Counters-closed active limit c s h = h

-- `ActiveJobs` before and after: kept, or lowered by one.
abbrev KeptOrLowered : Operator → Operator → Type 0
KeptOrLowered s s' = (s'.active_jobs ≡ s.active_jobs) ⊎ (s'.active_jobs ≡ s.active_jobs +ℤ negsuc 0)

abbrev KeptOrRaised : Operator → Operator → Type 0
KeptOrRaised s s' = (s'.active_jobs ≡ s.active_jobs) ⊎ (s'.active_jobs ≡ s.active_jobs +ℤ pos 1)

module _ (world : World) (job : JobObject) (w : ClusterImage) (s : Operator) where
  pub finish_running-active : (Methods.finish_running world job w s).1.active_jobs ≡ s.active_jobs
  finish_running-active =
      ((finish_running-Quiet world (Counters s.active_jobs s.max_parallel_jobs)
          (Counters-closed s.active_jobs s.max_parallel_jobs) job w).at
        s (refl, refl)).0.0

  cleanup-active : (Methods.cleanup_job_and_pods world job s).1.active_jobs ≡ s.active_jobs
  unfolding Methods.cleanup_job_and_pods
  cleanup-active = ground arith

  -- Both branches that end a job: a slot is freed, the status written, the job cleaned up.
  abbrev pub end_job : Operator → Result Methods.Outcome × Operator
  end_job =
      Methods.add_active (negsuc 0)
      >> (write world (Call.update_image_status w)
          >> (Methods.cleanup_job_and_pods world job >> Methods.finish_running world job w))

  pub end_job-active : (end_job s).1.active_jobs ≡ s.active_jobs +ℤ negsuc 0
  end_job-active =
      let lowered = s.active_jobs +ℤ negsuc 0 in
      let limit = s.max_parallel_jobs in
      let I = Counters lowered limit in
      let closed = Counters-closed lowered limit in
      ((Keeps-bind I (write world (Call.update_image_status w)) _
          (write-Quiet world I closed (Call.update_image_status w))
          (λ _ _.
            Keeps-bind I (Methods.cleanup_job_and_pods world job) _
              (cleanup-Quiet world I closed job)
              (λ _ _. finish_running-Quiet world I closed job w))).at
        (record s { active_jobs = lowered }) (refl, refl)).0.0

module _ (world : World) (image : ClusterImage) (s : Operator) where
  job_retried-active : (job : JobObject) → KeptOrLowered s (Methods.job_retried world job image s).1
  unfolding Methods.job_retried
  job_retried-active job =
      let w = Methods.set_status retrying (image.status.retry_count + 1) image in
      ground (arith, cleanup-active world job w (record_call (Call.update_image_status w) s))

  with_job-active :
      (found : Result JobObject) → KeptOrLowered s (Methods.with_job world image found s).1
  unfolding Methods.with_job
  with_job-active (err not_found) = unfold Methods.job_lost in ground arith
  with_job-active (err e) = inl refl
  with_job-active (ok job) = elim (Bool-cases (ltb 0 job.succeeded)) [
    | inl e ↦ rw e (inr (end_job-active world job (Methods.set_progress success image) s))
    | inr e ↦ rw e (elim (Bool-cases (ltb 0 job.failed)) [
      | inl f ↦ rw f (elim (Bool-cases (ltb image.status.retry_count 3)) [
        | inl g ↦ rw g (job_retried-active job)
        | inr g ↦ rw g (inr (end_job-active world job (Methods.set_progress failed image) s))
      ])
      | inr f ↦ rw f (inl (finish_running-active world job image s))
    ])
  ]

  handle_pending-active : KeptOrRaised s (Methods.handle_pending world image s).1
  unfolding Methods.handle_pending
  handle_pending-active = ground arith

-- Kept, lowered by one, or raised by one to at most the limit.
abbrev ChangeWithin : ℤ → Operator → Operator → Type 0
ChangeWithin limit s s' =
    (s'.active_jobs ≡ s.active_jobs)
    ⊎ (s'.active_jobs ≡ s.active_jobs +ℤ negsuc 0)
    ⊎ ((s'.active_jobs ≡ s.active_jobs +ℤ pos 1) × (s'.active_jobs ≤ℤ limit))

below_limit : (a b : ℤ) → leb_ℤ b a ≡ false → a +ℤ pos 1 ≤ℤ b
unfolding ◌+ℤ◌
below_limit a b h = ground arith

lowered_change : (limit : ℤ) (s s' : Operator) → KeptOrLowered s s' → ChangeWithin limit s s'
lowered_change limit s s' (inl e) = inl e
lowered_change limit s s' (inr e) = inr (inl e)

module _ (world : World) (image : ClusterImage) (s : Operator) where
  pending-ChangeWithin :
      leb_ℤ s.max_parallel_jobs s.active_jobs ≡ false
      → ChangeWithin s.max_parallel_jobs s (Methods.handle_pending world image s).1
  pending-ChangeWithin room = elim (handle_pending-active world image s) [
    | inl e ↦ inl e
    | inr e ↦ inr (inr (e, rw e (below_limit s.active_jobs s.max_parallel_jobs room)))
  ]

  running-ChangeWithin : ChangeWithin s.max_parallel_jobs s (Methods.handle_running world image s).1
  unfolding Methods.handle_running
  running-ChangeWithin =
      let key : Key = record { namespace = image.meta.namespace; name = job_name image } in
      lowered_change s.max_parallel_jobs s (Methods.handle_running world image s).1
        (with_job-active world image (record_call (Call.get_job key) s) (world.job_at s.calls key))

  process-ChangeWithin :
      (p : Progress)
      → (leb_ℤ s.max_parallel_jobs s.active_jobs && progress_eq p pending) ≡ false
      → ChangeWithin s.max_parallel_jobs s (Methods.process world p image s).1
  unfolding Methods.process progress_eq text_eq
  process-ChangeWithin pending h = pending-ChangeWithin (ground arith)
  process-ChangeWithin running h = running-ChangeWithin
  process-ChangeWithin retrying h = running-ChangeWithin
  process-ChangeWithin _ h = inl refl

  reconcile_image-ChangeWithin :
      ChangeWithin s.max_parallel_jobs s (Methods.reconcile_image world image s).1
  unfolding Methods.reconcile_image
  reconcile_image-ChangeWithin = elim (Bool-cases (progress_eq image.status.progress unset)) [
    | inl e ↦ rw e (unfold Methods.admit in ground arith)
    | inr e ↦
        rw e
          (elim (Bool-cases (
            leb_ℤ s.max_parallel_jobs s.active_jobs && progress_eq image.status.progress pending)) [
              | inl full ↦ rw full (inl refl)
              | inr room ↦ rw room (process-ChangeWithin image.status.progress room)
            ])
  ]

-- The image is read, then its export, and this is the limit that it sets.
abbrev pub SetsLimit : World → Key → Operator → ℤ → Type 0
SetsLimit world request s limit =
    (image : ClusterImage) × (export : ClusterImageExport) × (world.image_at s.calls request
      ≡ ok image)
    × (world.export_at (Call.get_image request ∷ s.calls) (Methods.export_key image) ≡ ok export)
    × (limit ≡ export.spec.max_concurrent_jobs)

-- Kept, lowered by one, or raised by one to at most the limit that the image's export sets.
abbrev pub SlotChange : World → Key → Operator → Operator → Type 0
SlotChange world request s s' =
    (s'.active_jobs ≡ s.active_jobs)
    ⊎ (s'.active_jobs ≡ s.active_jobs +ℤ negsuc 0)
    ⊎ ((s'.active_jobs ≡ s.active_jobs +ℤ pos 1)
        × ((limit : ℤ) × SetsLimit world request s limit × (s'.active_jobs ≤ℤ limit)))

module _ (world : World) (request : Key) (s : Operator) where
  by_limit :
      (limit : ℤ) (s' : Operator)
      → SetsLimit world request s limit
      → ChangeWithin limit s s'
      → SlotChange world request s s'
  by_limit limit s' sets (inl e) = inl e
  by_limit limit s' sets (inr (inl e)) = inr (inl e)
  by_limit limit s' sets (inr (inr (e, below))) = inr (inr (e, (limit, sets, below)))

  with_export-SlotChange :
      (image : ClusterImage) (answer : Result ClusterImageExport)
      → world.image_at s.calls request ≡ ok image
      → world.export_at (Call.get_image request ∷ s.calls) (Methods.export_key image) ≡ answer
      → SlotChange world request s
          (continue answer
            (record_call
              (Call.get_export (Methods.export_key image))
              (record_call (Call.get_image request) s))
            (λ export.
              Methods.set_max_parallel_jobs export.spec.max_concurrent_jobs
              >> Methods.reconcile_image world image)).1
  with_export-SlotChange image (ok export) found known =
      let limit = export.spec.max_concurrent_jobs in
      let start =
        record_call (Call.get_export (Methods.export_key image))
          (record_call (Call.get_image request) s) in
      by_limit limit
        (Methods.reconcile_image world image (record start { max_parallel_jobs = limit })).1
        (image, export, found, known, refl)
        (reconcile_image-ChangeWithin world image (record start { max_parallel_jobs = limit }))
  with_export-SlotChange image (err e) found known = inl refl

  with_image-SlotChange :
      (found : Result ClusterImage)
      → world.image_at s.calls request ≡ found
      → SlotChange world request s
          (Methods.with_image world found (record_call (Call.get_image request) s)).1
  unfolding Methods.with_image
  with_image-SlotChange (err not_found) same = inl refl
  with_image-SlotChange (err e) same = inl refl
  with_image-SlotChange (ok image) same =
      with_export-SlotChange image
        (world.export_at (Call.get_image request ∷ s.calls) (Methods.export_key image)) same refl

-- One reconciliation keeps `ActiveJobs`, lowers it by one, or raises it by one; where it raises it, the
-- image and then its export were read, and the new value is at most the limit that this export sets.
pub reconcile-SlotChange :
    (world : World) (request : Key) (s : Operator)
    → SlotChange world request s (Methods.reconcile world request s).1
unfolding Methods.reconcile
reconcile-SlotChange world request s =
    with_image-SlotChange world request s (world.image_at s.calls request) refl
