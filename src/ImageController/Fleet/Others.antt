-- ===== src/ImageController/Fleet/Others.antt =====
-- A reconciliation of one image leaves the statuses of the others alone.
use kubernetes_images_sync_o.Base.{
  ◌≡◌, ◌≢◌, refl, ap, ◌∙◌, ◌↔◌, Bool-cases, true, false, inl, inr, Option, List, ◌∷◌, arith,
}
use kubernetes_images_sync_o.Text.Laws.{text_eq_iff}
use kubernetes_images_sync_o.Api.{ClusterImage, ClusterImageExport, ClusterImageStatus}
use kubernetes_images_sync_o.Cluster.{Call, Key, World, Operator}
use kubernetes_images_sync_o.ImageController.Methods
use kubernetes_images_sync_o.ImageController.Permitted.{Permitted, IsKept}
use kubernetes_images_sync_o.ImageController.Lifecycle.{reconcile-keeps}
use kubernetes_images_sync_o.ImageController.JobEnd.{own_key, same_key, last_status}
use kubernetes_images_sync_o.ImageController.Settling.{Serves, as_read, status_now, or_first}

same_key_iff : (k l : Key) → (same_key k l ≡ true) ↔ (k ≡ l)
same_key_iff k l = ground (arith, text_eq_iff k.name l.name, text_eq_iff k.namespace l.namespace)

same_key-apart : (k l : Key) → k ≢ l → same_key k l ≡ false
same_key-apart k l apart = elim (Bool-cases (same_key k l)) [
  | inl e ↦ absurd (apart ((same_key_iff k l).0 e))
  | inr e ↦ e
]

module _ (image : ClusterImage) (key : Key) (apart : key ≢ own_key image) where
  call_lem :
      (c : Call) (calls : List Call)
      → Permitted image c
      → last_status key (c ∷ calls) ≡ last_status key calls
  call_lem (Call.update_image_status w) calls (same, follows) =
      let other : key ≢ own_key w = λ e. apart (e ∙ ap own_key same) in
      rw (same_key-apart key (own_key w) other) refl
  call_lem _ calls h = refl

  status-IsKept :
      (status : Option ClusterImageStatus) → IsKept image (λ s. last_status key s.calls ≡ status)
  status-IsKept status = record {
    called = λ c s h i. call_lem c s.calls h ∙ i;
    counted = λ s n i. i;
    limited = λ s n i. i;
  }

pub others_kept :
    (world : World) (image : ClusterImage) (export : ClusterImageExport) (other : ClusterImage)
    (s : Operator)
    → Serves world (own_key image) image export
    → own_key other ≢ own_key image
    → status_now other (Methods.reconcile world (own_key image) s).1.calls
      ≡ status_now other s.calls
others_kept world image export other s serves apart =
    let now = as_read image s.calls in
    let key = own_key other in
    ap (or_first other.status) (
      reconcile-keeps now (λ t. last_status key t.calls ≡ last_status key s.calls)
        (status-IsKept now key apart (last_status key s.calls)) world (own_key image) s
        (serves.image_read s.calls) refl)
