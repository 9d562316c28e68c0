-- ===== src/ImageController/Aggregate.antt =====
-- The loops of clusterimage_controller.go over images, pods and containers.
use kubernetes_images_sync_o.Base.{
  ℕ, zero, suc, Bool, true, false, not, ◌&&◌, Option, none, some, List, [], ◌∷◌, if◌then◌else◌,
}
use kubernetes_images_sync_o.Text.{text_eq}
use kubernetes_images_sync_o.Progress.{
  Progress, pending, retrying, running, failed, success, present,
}
use kubernetes_images_sync_o.Api.{ClusterImage}
use kubernetes_images_sync_o.Cluster.{Pod}

-- The loop of `checkImageExists`: another image of the same name is exported or being exported.
abbrev pub is_taken : Progress → Bool
is_taken success = true
is_taken present = true
is_taken running = true
is_taken _ = false

unfoldable pub held_by : ClusterImage → ClusterImage → Bool
held_by image ci =
    text_eq ci.spec.full_name image.spec.full_name
    && not (text_eq ci.meta.name image.meta.name)
    && is_taken ci.status.progress

-- The flags of the loop in `updateClusterImageExportStatus`.
pub record Summary : Type 0 where
  pub all_completed : Bool
  pub any_failed : Bool
  pub any_running : Bool

unfoldable pub note : Progress → Summary → Summary
note success f = f
note present f = f
note failed f = record f { any_failed = true; all_completed = false }
note running f = record f { all_completed = false; any_running = true }
note retrying f = record f { all_completed = false; any_running = true }
note pending f = record f { all_completed = false }
note _ f = f

unfoldable pub summarise : List ClusterImage → Summary → Summary
unfolding note
summarise [] f = f
summarise (ci ∷ items) f = summarise items (note ci.status.progress f)

unfoldable pub summary : List ClusterImage → Summary
unfolding summarise
summary items =
    summarise items (record { all_completed = true; any_failed = false; any_running = false })

unfoldable pub new_status : Summary → Progress
new_status f =
    if f.all_completed
    then success
    else if f.any_failed
    then failed
    else if f.any_running
    then running
    else pending

-- The first restart count that is not 0, over the pods and their containers.
unfoldable pub first_positive : List ℕ → Option ℕ
first_positive [] = none
first_positive (zero ∷ counts) = first_positive counts
first_positive (suc n ∷ counts) = some (suc n)

unfoldable pub or_else : Option ℕ → Option ℕ → Option ℕ
or_else (some n) o = some n
or_else none o = o

unfoldable pub first_restart : List Pod → Option ℕ
unfolding first_positive or_else
first_restart [] = none
first_restart (pod ∷ pods) = or_else (first_positive pod.restart_counts) (first_restart pods)
