-- ===== src/ImageController/Settling/Measure.antt =====
-- How far an image is from a status that it keeps, behind a job that has ended, and the slots that it takes.
use kubernetes_images_sync_o.Base.{
  ◌≤◌, ℕ, zero, suc, ◌<◌, ◌≡◌, ◌⊎◌, true, Option, none, some, List, [], ◌∷◌, ℤ, pos, negsuc, ◌+ℤ◌,
  ◌≤ℤ◌, arith,
}
use kubernetes_images_sync_o.Progress.{Progress, running, retrying}
use kubernetes_images_sync_o.Api.{ClusterImageStatus}
use kubernetes_images_sync_o.Cluster.{JobObject, Pod}
use kubernetes_images_sync_o.ImageController.Aggregate.{first_positive, or_else, first_restart}
use kubernetes_images_sync_o.ImageController.JobEnd.{ended_status, has_ended}
use kubernetes_images_sync_o.ImageController.Settling.{rounds, slots}

-- A restart count that is found is not 0.
abbrev pub IsPositive : Option ℕ → Type 0
IsPositive none = Unit
IsPositive (some n) = 0 < n

first_positive-IsPositive : (counts : List ℕ) → IsPositive (first_positive counts)
unfolding first_positive
first_positive-IsPositive [] = tt
first_positive-IsPositive (zero ∷ counts) = first_positive-IsPositive counts
first_positive-IsPositive (suc n ∷ counts) = omega arith

or_else-IsPositive : (o p : Option ℕ) → IsPositive o → IsPositive p → IsPositive (or_else o p)
unfolding or_else
or_else-IsPositive none p h k = k
or_else-IsPositive (some n) p h k = h

pub first_restart-IsPositive : (pods : List Pod) → IsPositive (first_restart pods)
unfolding first_restart
first_restart-IsPositive [] = tt
first_restart-IsPositive (pod ∷ pods) =
    or_else-IsPositive (first_positive pod.restart_counts) (first_restart pods)
      (first_positive-IsPositive pod.restart_counts) (first_restart-IsPositive pods)

-- The status of an image whose job has ended is nearer.
pub ended_status-rounds :
    (job : JobObject) (status : ClusterImageStatus) (restarts : Option ℕ)
    → (status.progress ≡ running) ⊎ (status.progress ≡ retrying)
    → has_ended job ≡ true
    → IsPositive restarts
    → rounds (ended_status job status restarts) < rounds status
ended_status-rounds job status none active over h = ground arith
ended_status-rounds job status (some n) active over h = ground arith

pub ended_status-slots :
    (job : JobObject) (status : ClusterImageStatus) (restarts : Option ℕ)
    → has_ended job ≡ true
    → slots (ended_status job status restarts).progress ≡ 0
ended_status-slots job status none over = ground arith
ended_status-slots job status (some n) over = ground arith

-- The active jobs of an operator and the slots of an image, before and after: as many jobs more are
-- active as the image has taken slots, or fewer.
abbrev pub CountsWith : ℤ → Progress → ℤ → Progress → Type 0
CountsWith active p active' p' = active' +ℤ pos (slots p) ≤ℤ active +ℤ pos (slots p')

slots-le : (p : Progress) → slots p ≤ 1
slots-le p = ground arith

lowered_by : (active : ℤ) (m n : ℕ) → m ≤ 1 → (active +ℤ negsuc 0) +ℤ pos m ≤ℤ active +ℤ pos n
unfolding ◌+ℤ◌
lowered_by active m n h = ground arith

-- A job that has ended.
pub lowered-CountsWith :
    (active : ℤ) (p p' : Progress) → CountsWith active p (active +ℤ negsuc 0) p'
lowered-CountsWith active p p' = lowered_by active (slots p) (slots p') (slots-le p)
