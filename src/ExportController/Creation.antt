-- ===== src/ExportController/Creation.antt =====
-- The loop of an export over its images.
use mathlib.Core.List.{Mem, mem-cons_self, mem-cons_of_mem}
use kubernetes_images_sync_o.Base.{
  ◌≡◌, ◌⊎◌, refl, ap, sym, subst, inl, inr, Bool, true, false, Bool-cases, List, [], ◌∷◌, ◌++◌, All,
}
use kubernetes_images_sync_o.Errors.{Result, ok, err, not_found}
use kubernetes_images_sync_o.Progress.{failed, progress_eq}
use kubernetes_images_sync_o.Api.{ClusterImage, ClusterImageExport}
use kubernetes_images_sync_o.Containers.{Container, ContainersList}
use kubernetes_images_sync_o.Cluster.{Call, Key, World, Operator}
use kubernetes_images_sync_o.Cluster.Op.{Op, pure, write, attempt, get_image, record_call}
use kubernetes_images_sync_o.Cluster.Keeps.{
  Keeps, Keeps-pure, Keeps-raise, Keeps-call, Keeps-bind, Keeps-if, Keeps-attempt,
}
use kubernetes_images_sync_o.ImageController.Outcomes.{Healthy}
use kubernetes_images_sync_o.ExportController.Methods
use kubernetes_images_sync_o.ExportController.Methods.{name_hash, new_cluster_image}

module _ (world : World) (export : ClusterImageExport) where
  abbrev creation : Container → Call
  creation image =
      Call.create_image
        (new_cluster_image (name_hash world.md5_hex export.meta.name image) export image)

  abbrev stop : Call
  stop = Call.update_export_status (Methods.set_progress failed export)

  abbrev lookup : Container → Call
  lookup image = Call.get_image (Methods.image_key world export image)

  -- Calls that were made stay in the record, below those that follow.
  module _ (base : List Call) where
    abbrev Made : Operator → Type 0
    Made s = (more : List Call) × (s.calls ≡ more ++ base)

    Made-call :
        {A : Type 0} (answer : Operator → Result A) (d : Call)
        → Keeps Made (λ _. Unit {0}) (λ s. (answer s, record_call d s))
    Made-call answer d =
        Keeps-call Made answer d (λ s (more, e). (d ∷ more, ap (λ t. d ∷ t) e)) (λ _. tt)

    create_or_skip-Made :
        (image : Container) (found : Result ClusterImage) (next : Op Bool)
        → Keeps Made (λ _. Unit {0}) next
        → Keeps Made (λ _. Unit {0}) (Methods.create_or_skip world export image found next)
    create_or_skip-Made image (ok existing) next k =
        Keeps-if Made (progress_eq existing.status.progress failed) _ _
          (λ _.
            Keeps-bind Made
              (write world (Call.update_export_status (Methods.set_progress failed export)))
              (λ _. pure true)
              (Made-call _ (Call.update_export_status (Methods.set_progress failed export)))
              (λ _ _. Keeps-pure Made true tt))
          (λ _. k)
    create_or_skip-Made image (err not_found) next k =
        Keeps-bind Made (write world (creation image)) (λ _. next) (Made-call _ (creation image))
          (λ _ _. k)
    create_or_skip-Made image (err e) next k = Keeps-raise Made e

    create_images-Made :
        (images : ContainersList)
        → Keeps Made (λ _. Unit {0}) (Methods.create_images world export images)
    unfolding Methods.create_images
    create_images-Made [] = Keeps-pure Made false tt
    create_images-Made (image ∷ images) =
        let key = Methods.image_key world export image in
        Keeps-bind Made (attempt (get_image world key)) _
          (Keeps-attempt Made _ (Made-call _ (Call.get_image key)))
          (λ found _.
            create_or_skip-Made image found (Methods.create_images world export images)
              (create_images-Made images))

  -- The name of the container's image was looked up: there was an image that has not failed, or there
  -- was none, and it was created next.
  abbrev pub IsHandled : List Call → Container → Type 0
  IsHandled calls image =
      (earlier more : List Call) × (((existing : ClusterImage) × (world.image_at earlier
              (Methods.image_key world export image)
            ≡ ok existing)
          × (progress_eq existing.status.progress failed ≡ false)
          × (calls ≡ more ++ lookup image ∷ earlier))
        ⊎ ((world.image_at earlier (Methods.image_key world export image) ≡ err not_found)
            × (calls ≡ more ++ creation image ∷ lookup image ∷ earlier)))

  -- Of one of the containers the image was looked up and has failed; then the export was set to FAILED,
  -- and this was the last call.
  abbrev pub HasFailed : List Call → ContainersList → Type 0
  HasFailed calls images =
      (image : Container) × Mem image images
      × (earlier : List Call) × (existing : ClusterImage) × (world.image_at earlier
            (Methods.image_key world export image)
          ≡ ok existing)
      × (progress_eq existing.status.progress failed ≡ true)
      × (calls ≡ stop ∷ lookup image ∷ earlier)

  -- The API server knows whether there is an image under the name.
  abbrev pub IsAnswered : Container → Type 0
  IsAnswered image =
      (calls : List Call)
      → ((existing : ClusterImage) × (world.image_at calls (Methods.image_key world export image)
            ≡ ok existing))
        ⊎ (world.image_at calls (Methods.image_key world export image) ≡ err not_found)

  abbrev pub Creates : ContainersList → Result Bool × Operator → Type 0
  Creates images (result, s) =
      (result ≡ ok false) × All (IsHandled s.calls) images
      ⊎ (result ≡ ok true) × HasFailed s.calls images

  module _ (image : Container) (images : ContainersList) where
    -- The later images, when this one is handled.
    later :
        (out : Result Bool × Operator)
        → IsHandled out.1.calls image
        → Creates images out
        → Creates (image ∷ images) out
    later out h (inl (e, all)) = inl (e, (h, all))
    later out h (inr (e, f)) =
        let (i, m, earlier, existing, found, failure, calls) = f in
        inr (e, (i, mem-cons_of_mem _ m, earlier, existing, found, failure, calls))

module _ (world : World) (healthy : Healthy world) (export : ClusterImageExport) where
  module _ (image : Container) (images : ContainersList) (s : Operator)
      (rest : (s' : Operator)
        → Creates world export images (Methods.create_images world export images s')) where
    abbrev looked : Operator
    looked = record_call (lookup world export image) s

    abbrev next : Op Bool
    next = Methods.create_images world export images

    abbrev Holds : Result ClusterImage → Type 0
    Holds found =
        Creates world export (image ∷ images)
          (Methods.create_or_skip world export image found next looked)

    abbrev key : Key
    key = Methods.image_key world export image

    existing_lem :
        (existing : ClusterImage) → world.image_at s.calls key ≡ ok existing → Holds (ok existing)
    existing_lem existing e = elim (Bool-cases (progress_eq existing.status.progress failed)) [
      | inl f ↦
          let same : Methods.create_or_skip world export image (ok existing) next looked
              ≡ (ok true, record_call (stop world export) looked) =
            rw (f, healthy) refl in
          subst (Creates world export (image ∷ images)) (sym same)
            (inr (refl, (image, mem-cons_self, s.calls, existing, e, f, refl)))
      | inr g ↦
          let same : Methods.create_or_skip world export image (ok existing) next looked
              ≡ next looked =
            rw g refl in
          let (more, grown) =
            ((create_images-Made world export looked.calls images).at looked ([], refl)).0 in
          subst (Creates world export (image ∷ images)) (sym same) (
            later world export image images (next looked)
              (s.calls, more, inl (existing, e, g, grown)) (rest looked))
    ]

    created_lem : world.image_at s.calls key ≡ err not_found → Holds (err not_found)
    created_lem e =
        let s' = record_call (creation world export image) looked in
        let same : Methods.create_or_skip world export image (err not_found) next looked ≡ next s' =
          rw healthy refl in
        let (more, grown) =
          ((create_images-Made world export s'.calls images).at s' ([], refl)).0 in
        subst (Creates world export (image ∷ images)) (sym same)
          (later world export image images (next s') (s.calls, more, inr (e, grown)) (rest s'))

    create_or_skip_lem :
        ((existing : ClusterImage) × (world.image_at s.calls key ≡ ok existing))
          ⊎ (world.image_at s.calls key ≡ err not_found)
        → Holds (world.image_at s.calls key)
    create_or_skip_lem (inl (existing, e)) = subst Holds (sym e) (existing_lem existing e)
    create_or_skip_lem (inr e) = subst Holds (sym e) (created_lem e)

  -- Where the API server takes every write and knows whether there is an image under each name, the loop
  -- ends without an error. Either each container's image is looked up, and there is one that has not
  -- failed or else it is created right after; or an image that is looked up has failed, and the last
  -- call sets the export to FAILED.
  pub create_images_lem :
      (images : ContainersList) (s : Operator)
      → All (IsAnswered world export) images
      → Creates world export images (Methods.create_images world export images s)
  unfolding Methods.create_images
  create_images_lem [] s a = inl (refl, tt)
  create_images_lem (image ∷ images) s (answered, a) =
      create_or_skip_lem image images s (λ s'. create_images_lem images s' a) (answered s.calls)
