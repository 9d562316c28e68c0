-- ===== src/ImageController/Permitted.antt =====
-- The calls that the life cycle of an image permits.
use kubernetes_images_sync_o.Base.{ℕ, ◌≤◌, ◌≡◌, ℤ}
use kubernetes_images_sync_o.Errors.{Result}
use kubernetes_images_sync_o.Progress.{
  Progress, unset, pending, retrying, running, failed, success, present,
}
use kubernetes_images_sync_o.Api.{ClusterImage, ClusterImageStatus}
use kubernetes_images_sync_o.Cluster.{Call, World, Operator}
use kubernetes_images_sync_o.Cluster.Op.{write, record_call}
use kubernetes_images_sync_o.Cluster.Keeps.{Keeps, AllCalls, Keeps-call}
use kubernetes_images_sync_o.ImageController.Backup.{job_name}

-- From RUNNING or RETRYING to another status or to RETRYING, with the retry count before and after.
abbrev pub FromActive : Progress → ℕ → ℕ → Type 0
FromActive pending r r' = r' ≡ r
FromActive success r r' = r' ≡ r
FromActive retrying r r' = r ≤ r'
FromActive failed r r' = (r ≤ r') × (3 ≤ r')
FromActive _ r r' = ⊥

-- From the status that was read to one that is written.
abbrev pub FollowsFrom : Progress → Progress → ℕ → ℕ → Type 0
FollowsFrom unset pending r r' = r' ≡ r
FollowsFrom pending present r r' = r' ≡ r
FollowsFrom pending running r r' = r' ≡ r
FollowsFrom running running r r' = r' ≡ r
FollowsFrom running p r r' = FromActive p r r'
FollowsFrom retrying p r r' = FromActive p r r'
FollowsFrom _ _ r r' = ⊥

abbrev pub Follows : ClusterImageStatus → ClusterImageStatus → Type 0
Follows old new = FollowsFrom old.progress new.progress old.retry_count new.retry_count

-- RUNNING or RETRYING: the image has a job.
abbrev pub IsActive : Progress → Type 0
IsActive running = Unit
IsActive retrying = Unit
IsActive _ = ⊥

module _ (image : ClusterImage) where
  -- The image with a status that may follow.
  abbrev pub Fits : ClusterImage → Type 0
  Fits w = (w ≡ record image { status = w.status }) × Follows image.status w.status

  -- The calls of a reconciliation of the image: reads, its own status, its job when it is PENDING,
  -- and when it is RUNNING or RETRYING the status of its export and the removal of jobs and pods.
  abbrev pub Permitted : Call → Type 0
  Permitted (Call.update_image_status w) = Fits w
  Permitted (Call.create_job job) =
      (image.status.progress ≡ pending)
      × (job.name ≡ job_name image)
      × (job.namespace ≡ image.meta.namespace)
  Permitted (Call.update_export_status export) = IsActive image.status.progress
  Permitted (Call.delete_job policy key) = IsActive image.status.progress
  Permitted (Call.delete_pods namespace selector) = IsActive image.status.progress
  Permitted (Call.create_image w) = ⊥
  Permitted (Call.update_export export) = ⊥
  Permitted _ = Unit

  -- What permitted calls and changes of the two counters keep.
  pub record IsKept (I : Operator → Type 0) : Type 0 where
    pub called : (c : Call) (s : Operator) → Permitted c → I s → I (record_call c s)
    pub counted : (s : Operator) (n : ℤ) → I s → I (record s { active_jobs = n })
    pub limited : (s : Operator) (n : ℤ) → I s → I (record s { max_parallel_jobs = n })

  -- A call that is permitted.
  pub call-Keeps :
      (I : Operator → Type 0) {A : Type 0}
      → IsKept I
      → (answer : Operator → Result A) (c : Call) → Permitted c
      → Keeps I (λ _. Unit {0}) (λ s. (answer s, record_call c s))
  call-Keeps I kept answer c h = Keeps-call I answer c (λ s i. kept.called c s h i) (λ _. tt)

  pub write-Keeps :
      (I : Operator → Type 0) (world : World)
      → IsKept I
      → (c : Call) → Permitted c
      → Keeps I (λ _. Unit {0}) (write world c)
  write-Keeps I world kept c h = call-Keeps I kept _ c h

  pub AllCalls-IsKept : IsKept (AllCalls Permitted)
  AllCalls-IsKept = record {
    called = λ c s h i. (h, i);
    counted = λ s n i. i;
    limited = λ s n i. i;
  }
