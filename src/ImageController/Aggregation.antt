-- ===== src/ImageController/Aggregation.antt =====
-- The status that `updateClusterImageExportStatus` gives an export.
use kubernetes_images_sync_o.Base.{
  ◌≡◌, refl, Bool, true, false, not, ◌&&◌, ◌||◌, List, [], ◌∷◌, arith, any, if◌then◌else◌,
}
use kubernetes_images_sync_o.Progress.{pending, retrying, running, failed, success}
use kubernetes_images_sync_o.Api.{ClusterImage}
use kubernetes_images_sync_o.ImageController.Aggregate.{
  Summary, note, summarise, summary, new_status,
}

abbrev pub is_failed : ClusterImage → Bool
is_failed ci = elim ci.status.progress [ failed ↦ true | _ ↦ false ]

abbrev pub is_active : ClusterImage → Bool
is_active ci = elim ci.status.progress [ running ↦ true | retrying ↦ true | _ ↦ false ]

abbrev pub is_pending : ClusterImage → Bool
is_pending ci = elim ci.status.progress [ pending ↦ true | _ ↦ false ]

abbrev pub is_open : ClusterImage → Bool
is_open ci = is_failed ci || (is_active ci || is_pending ci)

summarise_lem :
    (items : List ClusterImage) (f : Summary)
    → summarise items f ≡ record {
      all_completed = f.all_completed && not (any is_open items);
      any_failed = f.any_failed || any is_failed items;
      any_running = f.any_running || any is_active items;
    }
unfolding summarise any
summarise_lem [] f = ground arith
summarise_lem (ci ∷ items) f = ground (arith, summarise_lem items (note ci.status.progress f))

any_open :
    (items : List ClusterImage)
    → any is_open items ≡ (any is_failed items || (any is_active items || any is_pending items))
unfolding any
any_open [] = refl
any_open (ci ∷ items) = ground (arith, any_open items)

-- The export fails if one of its images failed; else it runs if one of them is RUNNING or RETRYING;
-- else it is PENDING if one of them is; else it is complete, also with no images at all.
pub new_status_lem :
    (items : List ClusterImage)
    → new_status (summary items) ≡ (
        if any is_failed items
        then failed
        else if any is_active items
        then running
        else if any is_pending items
        then pending
        else success)
unfolding new_status summary
new_status_lem items =
    let start : Summary = record {
      all_completed = true;
      any_failed = false;
      any_running = false;
    } in
    ground (arith, summarise_lem items start, any_open items)

pub all_completed-summary :
    (items : List ClusterImage) → (summary items).all_completed ≡ not (any is_open items)
unfolding summary
all_completed-summary items =
    let start : Summary = record {
      all_completed = true;
      any_failed = false;
      any_running = false;
    } in
    ground (arith, summarise_lem items start)
