-- ===== src/Workers/Threads/Paths.antt =====
-- What a goroutine has done so far, as a part of `process_images` over its workload, whatever sound
-- cache that starts with.
use kubernetes_images_sync_o.Base.{
  ℕ, zero, suc, ◌≡◌, refl, ◌∙◌, subst, Option, none, some, List, [], ◌∷◌, ◌++◌,
}
use kubernetes_images_sync_o.Text.{Text}
use kubernetes_images_sync_o.Errors
use kubernetes_images_sync_o.Errors.{Error, Result, ok, err}
use kubernetes_images_sync_o.Containers.{Container, ContainersList}
use kubernetes_images_sync_o.Reference.{ContainerCache, parse_reference, process_container_name}
use kubernetes_images_sync_o.Reference.Cache.{IsSound, process_container_name_lem}
use kubernetes_images_sync_o.Cluster.{Workload}
use kubernetes_images_sync_o.Workers.{in_namespace, images_of, process_images}

-- The whole run over a workload.
abbrev pub run_of : Option ℕ → Workload → ContainerCache → Result ContainersList × ContainerCache
run_of stop w cache = process_images stop w.namespace (images_of w) [] cache

abbrev pub one_more : Option ℕ → Option ℕ
one_more none = none
one_more (some n) = some (suc n)

-- The same end of the context, so many images earlier in the run.
abbrev later_by : ℕ → Option ℕ → Option ℕ
later_by zero stop = stop
later_by (suc k) stop = later_by k (one_more stop)

later_by-none : (k : ℕ) → later_by k none ≡ none
later_by-none zero = refl
later_by-none (suc k) = later_by-none k

-- Every run over the workload that starts with a sound cache has this result.
abbrev pub Ends : Workload → Option ℕ → Result ContainersList → Type 0
Ends w stop r = (cache : ContainerCache) → IsSound cache → (run_of stop w cache).0 ≡ r

-- The run over the workload gets to the images that are left with `own` gathered, and goes on as a
-- run over these does.
abbrev pub Leads : Workload → List Text → ContainersList → Type 0
Leads w left own =
    (k : ℕ) × ((stop : Option ℕ) (cache : ContainerCache)
      → IsSound cache
      → (cache' : ContainerCache) × IsSound cache'
        × ((run_of (later_by k stop) w cache).0
            ≡ (process_images stop w.namespace left own cache').0))

module _ (namespace image : Text) (images : List Text) (own : ContainersList)
    (cache : ContainerCache) (sound : IsSound cache) where
  one_image :
      (stop : Option ℕ) (container : Container)
      → parse_reference image ≡ ok container
      → (process_images (one_more stop) namespace (image ∷ images) own cache).0
        ≡ (process_images stop namespace images
            (own ++ in_namespace namespace container ∷ [])
            (process_container_name image cache).1).0
  unfolding process_images
  one_image none container parsed =
      rw ((process_container_name_lem image cache sound).0 ∙ parsed) refl
  one_image (some n) container parsed =
      rw ((process_container_name_lem image cache sound).0 ∙ parsed) refl

  no_image :
      (e : Error)
      → parse_reference image ≡ err e
      → (process_images none namespace (image ∷ images) own cache).0
        ≡ err (Errors.process_name image e)
  unfolding process_images
  no_image e parsed = rw ((process_container_name_lem image cache sound).0 ∙ parsed) refl

pub Leads-first : (w : Workload) → Leads w (images_of w) []
Leads-first w = (zero, λ stop cache sound. (cache, sound, refl))

module _ (w : Workload) (image : Text) (images : List Text) (own : ContainersList)
    (leads : Leads w (image ∷ images) own) where
  pub Leads-next :
      (container : Container)
      → parse_reference image ≡ ok container
      → Leads w images (own ++ in_namespace w.namespace container ∷ [])
  Leads-next container parsed = (
    suc leads.0,
    λ stop cache sound.
        let (cache', sound', same) = leads.1 (one_more stop) cache sound in
        (
          (process_container_name image cache').1,
          (process_container_name_lem image cache' sound').1,
          same ∙ one_image w.namespace image images own cache' sound' stop container parsed,
        ),
  )

  pub Ends-rejected :
      (e : Error)
      → parse_reference image ≡ err e
      → (stop : Option ℕ) × Ends w stop (err (Errors.process_name image e))
  Ends-rejected e parsed = (
    later_by leads.0 none,
    λ cache sound.
        let (cache', sound', same) = leads.1 none cache sound in
        same ∙ no_image w.namespace image images own cache' sound' e parsed,
  )

  pub Ends-cancelled : (stop : Option ℕ) × Ends w stop (err Errors.cancelled)
  unfolding process_images
  Ends-cancelled = (
    later_by leads.0 (some zero),
    λ cache sound. let (cache', sound', same) = leads.1 (some zero) cache sound in same,
  )

pub Ends-gathered : (w : Workload) (own : ContainersList) → Leads w [] own → Ends w none (ok own)
unfolding process_images
Ends-gathered w own leads cache sound =
    let (cache', sound', same) = leads.1 none cache sound in
    subst (λ stop. (run_of stop w cache).0 ≡ ok own) (later_by-none leads.0) same
