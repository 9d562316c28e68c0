-- ===== src/ExportController/Loop.antt =====
-- The calls of the loop of an export over its images (clusterimageexport_controller.go), one after the
-- other.
use kubernetes_images_sync_o.Base.{
  ◌≡◌, refl, sym, subst, inl, inr, Bool, true, false, Bool-cases, List, [], ◌∷◌,
}
use kubernetes_images_sync_o.Errors.{Result, ok, err, not_found}
use kubernetes_images_sync_o.Progress.{failed, progress_eq}
use kubernetes_images_sync_o.Api.{ClusterImage, ClusterImageExport}
use kubernetes_images_sync_o.Containers.{Container, ContainersList}
use kubernetes_images_sync_o.Cluster.{Call, Key, World, Operator}
use kubernetes_images_sync_o.Cluster.Op.{record_call}
use kubernetes_images_sync_o.ImageController.Outcomes.{Healthy}
use kubernetes_images_sync_o.ExportController.Creation.{IsAnswered}
use kubernetes_images_sync_o.ExportController.Methods
use kubernetes_images_sync_o.ExportController.Methods.{name_hash, new_cluster_image}

module _ (world : World) (export : ClusterImageExport) where
  abbrev pub lookup : Container → Call
  lookup image = Call.get_image (Methods.image_key world export image)

  abbrev pub creation : Container → Call
  creation image =
      Call.create_image
        (new_cluster_image (name_hash world.md5_hex export.meta.name image) export image)

-- From the calls before the loop to all calls behind it, newest first: of each image in turn the name is
-- looked up. If there is an image that has not failed, the next one follows; if there is none, it is
-- created first. If there is one that has failed, the export is set to FAILED and the loop ends with true.
pub data Loop (world : World) (export : ClusterImageExport)
    : List Call → ContainersList → Bool → List Call → Type 0 where
  ended : {before : List Call} → Loop world export before [] false before
  kept :
      {before after : List Call} {image : Container} {images : ContainersList} {end : Bool}
      (existing : ClusterImage)
      → world.image_at before (Methods.image_key world export image) ≡ ok existing
      → progress_eq existing.status.progress failed ≡ false
      → Loop world export (lookup world export image ∷ before) images end after
      → Loop world export before (image ∷ images) end after
  created :
      {before after : List Call} {image : Container} {images : ContainersList} {end : Bool}
      → world.image_at before (Methods.image_key world export image) ≡ err not_found
      → Loop world export
          (creation world export image ∷ lookup world export image ∷ before)
          images
          end
          after
      → Loop world export before (image ∷ images) end after
  stopped :
      {before : List Call} {image : Container} {images : ContainersList} (existing : ClusterImage)
      → world.image_at before (Methods.image_key world export image) ≡ ok existing
      → progress_eq existing.status.progress failed ≡ true
      → Loop world export before (image ∷ images) true (
          Call.update_export_status (Methods.set_progress failed export)
          ∷ lookup world export image
          ∷ before)

-- The loop has returned this, behind just those calls.
abbrev pub Loops :
    World → ClusterImageExport → List Call → ContainersList → Result Bool × Operator → Type 0
Loops world export before images (r, s) =
    (end : Bool) × (r ≡ ok end) × Loop world export before images end s.calls

module _ (world : World) (healthy : Healthy world) (export : ClusterImageExport)
    (answered : (c : Container) → IsAnswered world export c) where
  module _ (image : Container) (images : ContainersList) (s : Operator)
      (rest : (t : Operator)
        → Loops world export t.calls images (Methods.create_images world export images t)) where
    abbrev looked : Operator
    looked = record_call (lookup world export image) s

    abbrev round : Result ClusterImage → Result Bool × Operator
    round found =
        Methods.create_or_skip world export image found (Methods.create_images world export images)
          looked

    abbrev Holds : Result ClusterImage → Type 0
    Holds found = Loops world export s.calls (image ∷ images) (round found)

    abbrev key : Key
    key = Methods.image_key world export image

    found_lem :
        (existing : ClusterImage) → world.image_at s.calls key ≡ ok existing → Holds (ok existing)
    found_lem existing e = elim (Bool-cases (progress_eq existing.status.progress failed)) [
      | inl f ↦ rw (f, healthy) (true, refl, Loop.stopped existing e f)
      | inr g ↦ let (end, same, loop) = rest looked in rw g (end, same, Loop.kept existing e g loop)
    ]

    missing_lem : world.image_at s.calls key ≡ err not_found → Holds (err not_found)
    missing_lem e =
        let (end, same, loop) = rest (record_call (creation world export image) looked) in
        rw healthy (end, same, Loop.created e loop)

    round_lem : Holds (world.image_at s.calls key)
    round_lem = elim (answered image s.calls) [
      | inl (existing, e) ↦ subst Holds (sym e) (found_lem existing e)
      | inr e ↦ subst Holds (sym e) (missing_lem e)
    ]

  -- Where the API server takes every write and knows whether there is an image under each name, the loop
  -- returns, and it has made those calls and no other.
  pub create_images-Loops :
      (images : ContainersList) (s : Operator)
      → Loops world export s.calls images (Methods.create_images world export images s)
  unfolding Methods.create_images
  create_images-Loops [] s = (false, refl, Loop.ended)
  create_images-Loops (image ∷ images) s =
      round_lem image images s (λ t. create_images-Loops images t)
