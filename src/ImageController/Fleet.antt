-- ===== src/ImageController/Fleet.antt =====
-- Several images that share the slots for jobs (clusterimage_controller.go `Reconcile` with `ActiveJobs` and
-- `MaxParallelJobs`): each is reconciled again and again, round by round.
pub mod Others
pub mod Sums
pub mod Steps
pub mod Rounds
pub mod Settles
use kubernetes_images_sync_o.Base.{
  Bool, false, ◌||◌, ℕ, zero, suc, ◌+◌, ◌≢◌, List, [], ◌∷◌, ℤ, pos, ◌≤ℤ◌, map,
}
use kubernetes_images_sync_o.Api.{ClusterImage, ClusterImageExport}
use kubernetes_images_sync_o.Cluster.{Key, World, Operator}
use kubernetes_images_sync_o.ImageController.Methods
use kubernetes_images_sync_o.ImageController.JobEnd.{own_key}
use kubernetes_images_sync_o.ImageController.Limit.{reconcile_all}
use kubernetes_images_sync_o.ImageController.Rest.{IsAtRest}
use kubernetes_images_sync_o.ImageController.Settling.{
  is_busy, one_if, Serves, rounds, slots, status_now,
}

-- An image, with the export that it belongs to.
pub record Member : Type 0 where
  pub image : ClusterImage
  pub export : ClusterImageExport

pub data In (m : Member) : List Member → Type 0 where
  here : {rest : List Member} → In m (m ∷ rest)
  there : {n : Member} {rest : List Member} → In m rest → In m (n ∷ rest)

abbrev pub IsApart : Member → Member → Type 0
IsApart m n = own_key m.image ≢ own_key n.image

-- No two images have the same name and namespace.
abbrev pub AllApart : List Member → Type 0
AllApart [] = Unit
AllApart (m ∷ rest) = ((n : Member) → In n rest → IsApart m n) × AllApart rest

-- Every image is served, and its export allows a job.
abbrev pub ServesAll : World → List Member → Type 0
ServesAll world fleet =
    (m : Member)
    → In m fleet
    → Serves world (own_key m.image) m.image m.export × (pos 1 ≤ℤ m.export.spec.max_concurrent_jobs)

unfoldable pub sum : (Member → ℕ) → List Member → ℕ
sum f [] = 0
sum f (m ∷ rest) = f m + sum f rest

-- The reconciliations that all the images still need, and the slots that they take.
abbrev pub rounds_left : List Member → Operator → ℕ
rounds_left fleet s = sum (λ m. rounds (status_now m.image s.calls)) fleet

abbrev pub slots_taken : List Member → Operator → ℕ
slots_taken fleet s = sum (λ m. slots (status_now m.image s.calls).progress) fleet

abbrev pub keys : List Member → List Key
keys = map (λ m. own_key m.image)

-- So many rounds, in each of which every image is reconciled once.
abbrev pub round_robin : World → List Member → ℕ → Operator → Operator
round_robin world fleet zero s = s
round_robin world fleet (suc n) s = round_robin world fleet n (reconcile_all world (keys fleet) s)

-- In a round over these images some reconciliation finds its image's job still running.
abbrev pub is_busy_round : World → List Member → Operator → Bool
is_busy_round world [] s = false
is_busy_round world (m ∷ rest) s =
    is_busy world (own_key m.image) m.image s.calls
    || is_busy_round world rest (Methods.reconcile world (own_key m.image) s).1

-- How many of so many rounds are of that kind.
abbrev pub busy_rounds : World → List Member → ℕ → Operator → ℕ
busy_rounds world fleet zero s = 0
busy_rounds world fleet (suc n) s =
    one_if (is_busy_round world fleet s)
    + busy_rounds world fleet n (reconcile_all world (keys fleet) s)

abbrev pub AllSettled : List Member → Operator → Type 0
AllSettled fleet s = (m : Member) → In m fleet → IsAtRest (status_now m.image s.calls).progress
