-- ===== src/ImageController/Settling/Moves.antt =====
-- One reconciliation of an image that is served, whatever the number of active jobs.
use kubernetes_images_sync_o.Base.{
  true, ◌<◌, ◌≡◌, ◌⊎◌, refl, inl, inr, false, Bool-cases, ◌∷◌, ℤ, pos, negsuc, ◌+ℤ◌, ◌≤ℤ◌, leb_ℤ,
  arith, any,
}
use kubernetes_images_sync_o.Progress.{
  Progress, unset, pending, starting, running, retrying, failed, success, present, other,
}
use kubernetes_images_sync_o.Api.{ClusterImage, ClusterImageExport, ClusterImageStatus}
use kubernetes_images_sync_o.Errors.{ok}
use kubernetes_images_sync_o.Cluster.{JobObject, Call, Key, World, Operator, everywhere}
use kubernetes_images_sync_o.ImageController.Aggregate.{held_by, first_restart}
use kubernetes_images_sync_o.ImageController.Methods
use kubernetes_images_sync_o.ImageController.Outcomes.{any-held_by_iff}
use kubernetes_images_sync_o.ImageController.JobEnd.{has_ended, own_key, ended_status}
use kubernetes_images_sync_o.ImageController.Rest.{IsAtRest, after_reads, reconcile_rest}
use kubernetes_images_sync_o.ImageController.Settling.{
  job_key, is_busy, Serves, rounds, slots, status_now, as_read,
}
use kubernetes_images_sync_o.ImageController.Settling.Steps.{
  Leaves, with_progress, from_unset, from_pending-free, from_pending-held, from_active-ended,
  from_active-lost, from_active-busy,
}
use kubernetes_images_sync_o.ImageController.Settling.Measure.{
  first_restart-IsPositive, ended_status-rounds, CountsWith, lowered-CountsWith,
}

same-CountsWith :
    (active : ℤ) (p p' : Progress) → slots p ≡ slots p' → CountsWith active p active p'
same-CountsWith active p p' e = rw e (ground arith)

started-CountsWith : (active : ℤ) → CountsWith active pending (active +ℤ pos 1) running
unfolding ◌+ℤ◌
started-CountsWith active = ground arith

module _ (world : World) (request : Key) (image : ClusterImage) (export : ClusterImageExport)
    (serves : Serves world request image export) where
  abbrev pub limit : ℤ
  limit = export.spec.max_concurrent_jobs

  -- The image is nearer to a status that it keeps, and the active jobs count the slot that it takes.
  abbrev pub Advances : Operator → Operator → Type 0
  Advances s s' =
      let status = status_now image s.calls in
      let status' = status_now image s'.calls in
      (rounds status' < rounds status)
      × CountsWith s.active_jobs status.progress s'.active_jobs status'.progress

  -- It keeps its status: for good, or since there is no free slot, or its job still runs.
  abbrev pub Waits : Operator → Operator → Type 0
  Waits s s' =
      let status = status_now image s.calls in
      (status_now image s'.calls ≡ status)
      × (s'.active_jobs ≡ s.active_jobs)
      × (IsAtRest status.progress
          ⊎ ((status.progress ≡ pending) × (limit ≤ℤ s.active_jobs))
          ⊎ (is_busy world request image s.calls ≡ true))

  abbrev pub Moves : Operator → Operator → Type 0
  Moves s s' = Advances s s' ⊎ Waits s s'

  -- The state in which the image and its export have been read.
  abbrev pub read : Operator → Operator
  read s = after_reads world request (as_read image s.calls) export s

  pub served_lem :
      (s : Operator)
      → Methods.reconcile world request s
        ≡ Methods.reconcile_image world (as_read image s.calls) (read s)
  unfolding Methods.reconcile Methods.with_image
  served_lem s =
      rw (serves.image_read s.calls, (serves.export_read (Call.get_image request ∷ s.calls)).1) refl

  -- A status that is written is the one read next.
  advances :
      (s s' : Operator) (status : ClusterImageStatus) (active : ℤ)
      → Leaves (own_key image) status active s'
      → rounds status < rounds (status_now image s.calls)
      → CountsWith s.active_jobs (status_now image s.calls).progress active status.progress
      → Moves s s'
  advances s s' status active (last, same) fewer counts =
      inl (rw last fewer, rw (last, same) counts)

  module _ (s : Operator) where
    abbrev at : Operator
    at = read s

    abbrev now : ClusterImage
    now = as_read image s.calls

    abbrev next : Operator
    next = (Methods.reconcile_image world now at).1

    busy_found :
        (job : JobObject)
        → (now.status.progress ≡ running) ⊎ (now.status.progress ≡ retrying)
        → world.job_at at.calls (job_key image) ≡ ok job
        → has_ended job ≡ false
        → is_busy world request image s.calls ≡ true
    busy_found job active found runs = elim active [
      | inl e ↦ rw (e, found, runs) refl
      | inr e ↦ rw (e, found, runs) refl
    ]

    active_step : (now.status.progress ≡ running) ⊎ (now.status.progress ≡ retrying) → Moves s next
    active_step active = elim (serves.job_read at.calls) [
      | inl (job, found, over) ↦
          let pods = serves.pods job.namespace job.selector in
          let status = ended_status job now.status (first_restart pods) in
          advances s next status (s.active_jobs +ℤ negsuc 0)
            (from_active-ended world now at serves.healthy job pods active found over
              (serves.pods_read job.namespace job.selector))
            (ended_status-rounds job now.status (first_restart pods) active over
              (first_restart-IsPositive pods))
            (lowered-CountsWith s.active_jobs now.status.progress status.progress)
      | inr (inl (job, found, runs, calm)) ↦
          let (last, same) =
            from_active-busy world now at serves.healthy job
              (serves.pods job.namespace job.selector) active found runs calm
              (serves.pods_read job.namespace job.selector) in
          inr (rw last refl, same, inr (inr (busy_found job active found runs)))
      | inr (inr (lost, ne)) ↦
          advances s next (with_progress pending now.status) s.active_jobs
            (from_active-lost world now at serves.healthy active lost) (ground arith)
            (same-CountsWith s.active_jobs now.status.progress pending (ground arith))
    ]

    pending_step : now.status.progress ≡ pending → leb_ℤ limit s.active_jobs ≡ false → Moves s next
    pending_step e free =
        let (items, listing) = serves.listing at.calls in
        let known = serves.export_read (Call.list_images everywhere ∷ at.calls) in
        elim (Bool-cases (any (held_by now) items)) [
          | inl held ↦
              advances s next (with_progress present now.status) s.active_jobs
                (from_pending-held world now at serves.healthy items e free listing
                  ((any-held_by_iff now items).0 held))
                (ground arith)
                (same-CountsWith s.active_jobs now.status.progress present (rw e refl))
          | inr not_held ↦
              advances s next (with_progress running now.status) (s.active_jobs +ℤ pos 1)
                (from_pending-free world now at serves.healthy
                  (record export { progress = known.0 }) items e free listing known.1
                  (λ h. let held = (any-held_by_iff now items).1 h in cc))
                (ground arith) (rw e (started-CountsWith s.active_jobs))
        ]

    with_more :
        IsAtRest now.status.progress ⊎ ((now.status.progress ≡ pending) × (limit ≤ℤ s.active_jobs))
        → IsAtRest now.status.progress
          ⊎ ((now.status.progress ≡ pending) × (limit ≤ℤ s.active_jobs))
          ⊎ (is_busy world request image s.calls ≡ true)
    with_more (inl rest) = inl rest
    with_more (inr full) = inr (inl full)

    waits :
        IsAtRest now.status.progress ⊎ ((now.status.progress ≡ pending) × (limit ≤ℤ s.active_jobs))
        → Moves s (Methods.reconcile world request s).1
    waits rest =
        let (p, known) = serves.export_read (Call.get_image request ∷ s.calls) in
        rw
          (reconcile_rest world request now (record export { progress = p }) s
            (serves.image_read s.calls) known rest)
          (inr (refl, refl, with_more rest))

    by_progress :
        (p : Progress) → now.status.progress ≡ p → Moves s (Methods.reconcile world request s).1
    by_progress unset e = rw (served_lem s) (
        advances s next (with_progress pending now.status) s.active_jobs
          (from_unset world now at serves.healthy e) (ground arith)
          (same-CountsWith s.active_jobs now.status.progress pending (rw e refl)))
    by_progress pending e = elim (Bool-cases (leb_ℤ limit s.active_jobs)) [
      | inl full ↦ waits (inr (e, ground arith))
      | inr free ↦ rw (served_lem s) (pending_step e free)
    ]
    by_progress running e = rw (served_lem s) (active_step (inl e))
    by_progress retrying e = rw (served_lem s) (active_step (inr e))
    by_progress starting e = waits (inl (rw e tt))
    by_progress failed e = waits (inl (rw e tt))
    by_progress success e = waits (inl (rw e tt))
    by_progress present e = waits (inl (rw e tt))
    by_progress (other t) e = waits (inl (rw e tt))

    -- One reconciliation of an image that is served.
    pub moves : Moves s (Methods.reconcile world request s).1
    moves = by_progress now.status.progress refl
