-- ===== src/Workers/Worked.antt =====
-- What a listing that returns says of the goroutines of `ListAndProcessResources` (internal/shared/k8s.go).
use kubernetes_images_sync_o.Base.{
  ℕ, zero, suc, ◌≤◌, ◌≡◌, refl, sym, Option, none, some, List, [], ◌∷◌, ◌++◌, Bool, true, false,
  All, length, arith,
}
use kubernetes_images_sync_o.Text.{Text}
use kubernetes_images_sync_o.Errors.{Error, Result, ok, err}
use kubernetes_images_sync_o.Containers.{Container, ContainersList}
use kubernetes_images_sync_o.Reference.{ContainerCache, parse_reference, process_container_name}
use kubernetes_images_sync_o.Reference.Cache.{IsSound, process_container_name_lem}
use kubernetes_images_sync_o.Cluster.{Call, Workload, World, Operator}
use kubernetes_images_sync_o.Workers.{
  in_namespace, append_parsed, process_images, images_of, extend, first_error, collect,
  process_workloads, select,
}

-- The context was not found done before the last image.
abbrev pub ReachesEnd : Option ℕ → List Text → Type 0
ReachesEnd none images = Unit
ReachesEnd (some n) images = length images ≤ n

abbrev pub Parses : Text → Type 0
Parses image = (c : Container) × (parse_reference image ≡ ok c)

-- The goroutine got through all images of its workload, and their names parse.
abbrev pub IsClean : Workload × Option ℕ → Type 0
IsClean (w, stop) = ReachesEnd stop (images_of w) × All Parses (images_of w)

abbrev Cleans : Option ℕ → List Text → Result ContainersList × ContainerCache → Type 0
Cleans stop images (r, cache) =
    IsSound cache
    × ((out : ContainersList) → r ≡ ok out → ReachesEnd stop images × All Parses images)

module _ (namespace : Text) where
  append_parsed-Cleans :
      (stop stop' : Option ℕ) (image : Text) (images : List Text) (out : ContainersList)
      (parsed : Result Container) (next : ContainersList → Result ContainersList × ContainerCache)
      (cache : ContainerCache)
      → parsed ≡ parse_reference image
      → IsSound cache
      → (ReachesEnd stop images → ReachesEnd stop' (image ∷ images))
      → ((out' : ContainersList) → Cleans stop images (next out'))
      → Cleans stop' (image ∷ images) (append_parsed image namespace out parsed next cache)
  append_parsed-Cleans stop stop' image images out (ok c) next cache same sound more later =
      let (sound', clean) = later (out ++ in_namespace namespace c ∷ []) in
      (
        sound',
        λ whole e. let (reaches, parse) = clean whole e in (more reaches, ((c, sym same), parse)),
      )
  append_parsed-Cleans stop stop' image images out (err x) next cache same sound more later =
      (sound, λ whole e. absurd (cc))

  process_images-Cleans :
      (stop : Option ℕ) (images : List Text) (out : ContainersList) (cache : ContainerCache)
      → IsSound cache
      → Cleans stop images (process_images stop namespace images out cache)
  unfolding process_images
  process_images-Cleans none [] out cache sound = (sound, λ whole e. (tt, tt))
  process_images-Cleans (some n) [] out cache sound = (sound, λ whole e. (omega arith, tt))
  process_images-Cleans (some zero) (image ∷ images) out cache sound =
      (sound, λ whole e. absurd (cc))
  process_images-Cleans (some (suc n)) (image ∷ images) out cache sound =
      let (same, sound') = process_container_name_lem image cache sound in
      let (parsed, cache') = process_container_name image cache in
      append_parsed-Cleans (some n) (some (suc n)) image images out parsed
        (λ out'. process_images (some n) namespace images out' cache') cache' same sound'
        (λ h. omega (arith, h)) (λ out'. process_images-Cleans (some n) images out' cache' sound')
  process_images-Cleans none (image ∷ images) out cache sound =
      let (same, sound') = process_container_name_lem image cache sound in
      let (parsed, cache') = process_container_name image cache in
      append_parsed-Cleans none none image images out parsed
        (λ out'. process_images none namespace images out' cache') cache' same sound' (λ h. h)
        (λ out'. process_images-Cleans none images out' cache' sound')

first_error-none :
    (error : Option Error) (r : Result ContainersList)
    → first_error error r ≡ none
    → (error ≡ none) × ((out : ContainersList) × (r ≡ ok out))
unfolding first_error
first_error-none (some e) r h = absurd (cc)
first_error-none none (ok out) h = (refl, (out, refl))
first_error-none none (err e) h = absurd (cc)

collect-IsClean :
    (runs : List (Workload × Option ℕ)) (list : ContainersList) (error : Option Error)
    (cache : ContainerCache)
    → IsSound cache
    → let (out, error', cache') = collect runs list error cache in
      IsSound cache' × (error' ≡ none → (error ≡ none) × All IsClean runs)
unfolding collect
collect-IsClean [] list error cache sound = (sound, λ e. (e, tt))
collect-IsClean ((w, stop) ∷ runs) list error cache sound =
    let (r, cache') = process_images stop w.namespace (images_of w) [] cache in
    let (sound', clean) = process_images-Cleans w.namespace stop (images_of w) [] cache sound in
    let (sound'', rest) =
      collect-IsClean runs (extend list r) (first_error error r) cache' sound' in
    (
      sound'',
      λ e.
          let (no_error, all) = rest e in
          let (before, (out, same)) = first_error-none error r no_error in
          (before, (clean out same, all)),
    )

select-ok :
    (interrupted : Bool) (list : ContainersList) (error : Option Error) (out : ContainersList)
    → select interrupted list error ≡ ok out
    → (interrupted ≡ false) × (error ≡ none)
unfolding select
select-ok true list (some e) out h = absurd (cc)
select-ok true list none out h = absurd (cc)
select-ok false list (some e) out h = absurd (cc)
select-ok false list none out h = (refl, refl)

-- The wait for the goroutines over these workloads was not interrupted, and none of them failed.
abbrev pub AreDone : World → List Call → List Workload → Type 0
AreDone world calls items =
    (world.interrupted calls ≡ false) × All IsClean (world.completions calls items)

pub process_workloads-AreDone :
    (world : World) (items : List Workload) (list : ContainersList) (s : Operator)
    → IsSound s.cache
    → IsSound (process_workloads world items list s).1.cache
      × ((out : ContainersList)
          → (process_workloads world items list s).0 ≡ ok out
          → AreDone world s.calls items)
unfolding process_workloads
process_workloads-AreDone world items list s sound =
    let runs = world.completions s.calls items in
    let (out, error, cache') = collect runs list none s.cache in
    let (sound', clean) = collect-IsClean runs list none s.cache sound in
    (
      sound',
      λ whole e.
          let (waited, no_error) = select-ok (world.interrupted s.calls) out error whole e in
          (waited, (clean no_error).1),
    )
