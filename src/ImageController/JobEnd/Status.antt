-- ===== src/ImageController/JobEnd/Status.antt =====
-- The status of an image that was written last, and the methods that keep it
-- (clusterimage_controller.go).
use kubernetes_images_sync_o.Base.{
  ℕ, ◌+◌, ◌≡◌, refl, ap, ◌∙◌, subst, ◌&&◌, true, Bool, Option, none, some, List, [], ◌∷◌, arith,
  leb, if◌then◌else◌,
}
use kubernetes_images_sync_o.Text.{Text, text_eq}
use kubernetes_images_sync_o.Text.Laws.{text_eq_iff}
use kubernetes_images_sync_o.Errors.{Result}
use kubernetes_images_sync_o.Progress.{retrying, failed}
use kubernetes_images_sync_o.Api.{ClusterImage, ClusterImageStatus}
use kubernetes_images_sync_o.Jobs.{app_label}
use kubernetes_images_sync_o.Cluster.{Call, Key, World, Operator, JobObject, foreground}
use kubernetes_images_sync_o.Cluster.Op.{◌>>◌, attempt, write, list_jobs}
use kubernetes_images_sync_o.Cluster.Keeps.{
  Keeps, Keeps-pure, Keeps-call, Keeps-bind, Keeps-attempt,
}
use kubernetes_images_sync_o.ImageController.Methods

abbrev pub own_key : ClusterImage → Key
own_key image = record { namespace = image.meta.namespace; name = image.meta.name }

abbrev pub same_key : Key → Key → Bool
same_key k l = text_eq k.name l.name && text_eq k.namespace l.namespace

-- The status that was written last for an image.
abbrev pub last_status : Key → List Call → Option ClusterImageStatus
last_status key [] = none
last_status key (Call.update_image_status w ∷ calls) =
    let older = last_status key calls in if same_key key (own_key w) then some w.status else older
last_status key (_ ∷ calls) = last_status key calls

pub same_key_refl : (k : Key) → same_key k k ≡ true
same_key_refl k = ground (arith, text_eq_iff k.name k.name, text_eq_iff k.namespace k.namespace)

pub last_status-own :
    (key : Key) (w : ClusterImage) (calls : List Call)
    → own_key w ≡ key
    → last_status key (Call.update_image_status w ∷ calls) ≡ some w.status
last_status-own key w calls own =
    subst (λ k. last_status k (Call.update_image_status w ∷ calls) ≡ some w.status) own
      (rw (same_key_refl (own_key w)) refl)

-- The status after the pods were looked at: a restart count moves it to RETRYING, or to FAILED at 3.
abbrev pub restarted : ClusterImageStatus → Option ℕ → ClusterImageStatus
restarted status none = status
restarted status (some n) =
    let count = status.retry_count + n in
    record { progress = if leb 3 count then failed else retrying; retry_count = count }

module _ (world : World) (key : Key) (status : ClusterImageStatus) where
  abbrev pub Last : Operator → Type 0
  Last s = last_status key s.calls ≡ some status

  ignore_Last :
      (r : Result (Unit {0}))
      → Keeps Last (λ _. Unit {0}) (Methods.ignore_not_found world (λ e. e) r)
  ignore_Last r = record { at = λ s h. ground arith }

  delete_each-Last :
      (jobs : List JobObject) → Keeps Last (λ _. Unit {0}) (Methods.delete_each world jobs)
  unfolding Methods.delete_each
  delete_each-Last [] = Keeps-pure Last tt tt
  delete_each-Last (job ∷ jobs) =
      let call =
        Call.delete_job foreground (record { namespace = job.namespace; name = job.name }) in
      Keeps-bind Last (attempt (write world call)) _
        (Keeps-attempt Last _ (Keeps-call Last {R = λ _. Unit {0}} _ call (λ s h. h) (λ _. tt)))
        (λ r _.
          Keeps-bind Last (Methods.ignore_not_found world (λ e. e) r) _ (ignore_Last r)
            (λ _ _. delete_each-Last jobs))

  pub remove_all_Last :
      (namespace : Text)
      → Keeps Last (λ _. Unit {0}) (Methods.remove_all_jobs_and_containers world namespace)
  unfolding Methods.remove_all_jobs_and_containers
  remove_all_Last namespace =
      Keeps-bind Last (list_jobs world namespace app_label) _
        (Keeps-call Last {R = λ _. Unit {0}} _ (Call.list_jobs namespace app_label) (λ s h. h)
          (λ _. tt))
        (λ jobs _. delete_each-Last jobs)

  pub update_export_Last :
      (w : ClusterImage)
      → Keeps Last (λ _. Unit {0}) (Methods.update_cluster_image_export_status world w)
  unfolding Methods.update_cluster_image_export_status
  update_export_Last w = record { at = λ s h. ground arith }

  -- The same status is written again, and the export's status after it.
  pub final_Last :
      (w : ClusterImage)
      → w.status ≡ status
      → own_key w ≡ key
      → Keeps Last
          (λ _. Unit {0})
          (write world (Call.update_image_status w)
            >> Methods.update_cluster_image_export_status world w)
  final_Last w e own =
      Keeps-bind Last (write world (Call.update_image_status w)) _
        (Keeps-call Last {R = λ _. Unit {0}} _ (Call.update_image_status w)
          (λ s h. last_status-own key w s.calls own ∙ ap some e) (λ _. tt))
        (λ _ _. update_export_Last w)
