-- ===== src/Workers/Named.antt =====
-- The containers that the images of one workload, and of several, stand for.
use kubernetes_images_sync_o.Base.{
  ℕ, zero, suc, ◌≡◌, refl, sym, ap, ◌∙◌, Option, none, some, List, [], ◌∷◌, ◌++◌, map, append_assoc,
  append-nil,
}
use kubernetes_images_sync_o.Text.{Text}
use kubernetes_images_sync_o.Errors.{Error, Result, ok, err}
use kubernetes_images_sync_o.Containers.{Container, ContainersList}
use kubernetes_images_sync_o.Reference.{ContainerCache, parse_reference, process_container_name}
use kubernetes_images_sync_o.Reference.Cache.{IsSound, process_container_name_lem}
use kubernetes_images_sync_o.Cluster.{Workload}
use kubernetes_images_sync_o.Workers.{
  in_namespace, append_parsed, process_images, images_of, first_error, extend, collect,
}

-- The containers that the names stand for, in a namespace: every name parses.
pub data Named (namespace : Text) : List Text → ContainersList → Type 0 where
  nil : Named namespace [] []
  cons :
      {image : Text} {images : List Text} {container : Container} {out : ContainersList}
      → parse_reference image ≡ ok container
      → Named namespace images out
      → Named namespace (image ∷ images) (in_namespace namespace container ∷ out)

-- The containers of several workloads, one workload after the other.
pub data Gathered : List Workload → ContainersList → Type 0 where
  nil : Gathered [] []
  cons :
      {w : Workload} {ws : List Workload} {out rest : ContainersList}
      → Named w.namespace (images_of w) out
      → Gathered ws rest
      → Gathered (w ∷ ws) (out ++ rest)

-- A run over images that succeeds appends the containers of all of them.
abbrev Appends : Text → List Text → ContainersList → Result ContainersList → Type 0
Appends namespace images out r =
    (result : ContainersList)
    → r ≡ ok result
    → (more : ContainersList) × (result ≡ out ++ more) × Named namespace images more

append_parsed_lem :
    (image namespace : Text) (images : List Text) (out : ContainersList) (parsed : Result Container)
    (next : ContainersList → Result ContainersList × ContainerCache) (cache : ContainerCache)
    → parse_reference image ≡ parsed
    → IsSound cache
    → ((out' : ContainersList)
        → Appends namespace images out' (next out').0 × IsSound (next out').1)
    → Appends namespace (image ∷ images) out (append_parsed image namespace out parsed next cache).0
      × IsSound (append_parsed image namespace out parsed next cache).1
append_parsed_lem image namespace images out (ok c) next cache is_parsed sound later =
    let c' = in_namespace namespace c in
    let (appends, kept) = later (out ++ c' ∷ []) in
    (
      (λ result e.
          let (more, same, named) = appends result e in
          (c' ∷ more, same ∙ append_assoc out (c' ∷ []) more, Named.cons is_parsed named)),
      kept,
    )
append_parsed_lem image namespace images out (err e) next cache is_parsed sound later =
    ((λ result q. cc), sound)

process_images_lem :
    (stop : Option ℕ) (namespace : Text) (images : List Text) (out : ContainersList)
    (cache : ContainerCache)
    → IsSound cache
    → Appends namespace images out (process_images stop namespace images out cache).0
      × IsSound (process_images stop namespace images out cache).1
unfolding process_images
process_images_lem stop namespace [] out cache sound =
    ((λ result e. ([], cc (append-nil out), Named.nil)), sound)
process_images_lem (some zero) namespace (image ∷ images) out cache sound =
    ((λ result e. cc), sound)
process_images_lem (some (suc n)) namespace (image ∷ images) out cache sound =
    let (same, sound') = process_container_name_lem image cache sound in
    let cache' = (process_container_name image cache).1 in
    append_parsed_lem image namespace images out (process_container_name image cache).0
      (λ out'. process_images (some n) namespace images out' cache') cache' (sym same) sound'
      (λ out'. process_images_lem (some n) namespace images out' cache' sound')
process_images_lem none namespace (image ∷ images) out cache sound =
    let (same, sound') = process_container_name_lem image cache sound in
    let cache' = (process_container_name image cache).1 in
    append_parsed_lem image namespace images out (process_container_name image cache).0
      (λ out'. process_images none namespace images out' cache') cache' (sym same) sound'
      (λ out'. process_images_lem none namespace images out' cache' sound')

-- Once a goroutine has failed, there is an error at the end.
collect_failed :
    (runs : List (Workload × Option ℕ)) (list : ContainersList) (e : Error) (cache : ContainerCache)
    → (collect runs list (some e) cache).1 ≡ some e
unfolding collect
collect_failed [] list e cache = refl
collect_failed ((w, stop) ∷ rest) list e cache = collect_failed rest _ e _

abbrev pub workloads : List (Workload × Option ℕ) → List Workload
workloads = map (λ (r : Workload × Option ℕ). r.0)

pub collect-IsSound :
    (runs : List (Workload × Option ℕ)) (list : ContainersList) (error : Option Error)
    (cache : ContainerCache)
    → IsSound cache
    → IsSound (collect runs list error cache).2
unfolding collect
collect-IsSound [] list error cache sound = sound
collect-IsSound ((w, stop) ∷ rest) list error cache sound =
    collect-IsSound rest _ _ _ (process_images_lem stop w.namespace (images_of w) [] cache sound).1

-- Without an error at the end, the list has grown by the containers of all the workloads.
pub collect_lem :
    (runs : List (Workload × Option ℕ)) (list : ContainersList) (cache : ContainerCache)
    → IsSound cache
    → (collect runs list none cache).1 ≡ none
    → (more : ContainersList) × ((collect runs list none cache).0 ≡ list ++ more)
      × Gathered (workloads runs) more
unfolding collect
collect_lem [] list cache sound e = ([], sym (append-nil list), Gathered.nil)
collect_lem ((w, stop) ∷ rest) list cache sound e =
    let (appends, sound') = process_images_lem stop w.namespace (images_of w) [] cache sound in
    step (process_images stop w.namespace (images_of w) [] cache).0 appends
      (λ list'.
        collect_lem rest list' (process_images stop w.namespace (images_of w) [] cache).1 sound')
      e
  where
    step :
        (r : Result ContainersList)
        → Appends w.namespace (images_of w) [] r
        → ((list' : ContainersList)
            → (collect rest list' none (process_images stop w.namespace (images_of w) [] cache).1).1
              ≡ none
            → (more : ContainersList) × ((collect rest list' none
                  (process_images stop w.namespace (images_of w) [] cache).1).0
                ≡ list' ++ more)
              × Gathered (workloads rest) more)
        → (collect rest
            (extend list r)
            (first_error none r)
            (process_images stop w.namespace (images_of w) [] cache).1).1
          ≡ none
        → (more : ContainersList) × ((collect rest
              (extend list r)
              (first_error none r)
              (process_images stop w.namespace (images_of w) [] cache).1).0
            ≡ list ++ more)
          × Gathered (w ∷ workloads rest) more
    step (ok out) appends later e =
        let (own, same, named) = appends out refl in
        let (more, grown, gathered) = later (list ++ out) e in
        (
          own ++ more,
          grown ∙ ap (λ t. (list ++ t) ++ more) same ∙ append_assoc list own more,
          Gathered.cons named gathered,
        )
    step (err x) appends later e =
        cc (collect_failed rest list x (process_images stop w.namespace (images_of w) [] cache).1)
