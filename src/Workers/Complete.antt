-- ===== src/Workers/Complete.antt =====
-- When the images of workloads can be listed.
use mathlib.Core.List.{Mem, mem-cons_self, mem-cons_of_mem}
use mathlib.Core.List.Perm
use kubernetes_images_sync_o.Base.{
  ℕ, ◌≡◌, refl, sym, ◌∙◌, subst, Bool, true, false, Option, none, some, List, [], ◌∷◌, ◌++◌, map,
  All,
}
use kubernetes_images_sync_o.Text.{Text}
use kubernetes_images_sync_o.Errors.{Result, ok, err}
use kubernetes_images_sync_o.Containers.{Container, ContainersList}
use kubernetes_images_sync_o.Reference.{ContainerCache, parse_reference, process_container_name}
use kubernetes_images_sync_o.Reference.Cache.{IsSound, process_container_name_lem}
use kubernetes_images_sync_o.Cluster.{
  Call, Workload, WorkloadKind, deployments, jobs, daemon_sets, cron_jobs, World, Operator,
}
use kubernetes_images_sync_o.Cluster.Op.{Op, ◌>>=◌, record_call}
use kubernetes_images_sync_o.Workers.{
  in_namespace, append_parsed, process_images, images_of, extend, first_error, collect,
  process_workloads, select, list_and_process_resources, list_all_resources,
}
use kubernetes_images_sync_o.Workers.Gathered.{EachOnce, list_and_process_resources_lem}

abbrev pub is_ok : Result Container → Bool
is_ok (ok c) = true
is_ok (err e) = false

-- The name of an image parses.
abbrev pub Parses : Text → Type 0
Parses image = is_ok (parse_reference image) ≡ true

container_of : (r : Result Container) → is_ok r ≡ true → (c : Container) × (r ≡ ok c)
container_of (ok c) h = (c, refl)
container_of (err e) h = absurd (cc)

abbrev pub AllParse : List Workload → Type 0
AllParse items =
    (w : Workload) (image : Text) → Mem w items → Mem image (images_of w) → Parses image

-- A run that succeeds, and leaves a sound cache.
abbrev Succeeds : Result ContainersList × ContainerCache → Type 0
Succeeds (result, cache) = ((out : ContainersList) × (result ≡ ok out)) × IsSound cache

process_images_ok :
    (namespace : Text) (images : List Text) (out : ContainersList) (cache : ContainerCache)
    → IsSound cache
    → ((image : Text) → Mem image images → Parses image)
    → Succeeds (process_images none namespace images out cache)
unfolding process_images
process_images_ok namespace [] out cache sound h = ((out, refl), sound)
process_images_ok namespace (image ∷ images) out cache sound h =
    let (c, p) = container_of (parse_reference image) (h image mem-cons_self) in
    let (same, sound') = process_container_name_lem image cache sound in
    let cache' = (process_container_name image cache).1 in
    let parsed : (process_container_name image cache).0 ≡ ok c = same ∙ p in
    let next = λ (out' : ContainersList). process_images none namespace images out' cache' in
    subst (λ r. Succeeds (append_parsed image namespace out r next cache')) (sym parsed)
      (process_images_ok namespace images (out ++ in_namespace namespace c ∷ []) cache' sound'
        (λ i m. h i (mem-cons_of_mem _ m)))

-- The context is not found done.
abbrev IsUndisturbed : List (Workload × Option ℕ) → Type 0
IsUndisturbed = All (λ (r : Workload × Option ℕ). r.1 ≡ none)

collect_ok :
    (runs : List (Workload × Option ℕ)) (list : ContainersList) (cache : ContainerCache)
    → IsSound cache
    → IsUndisturbed runs
    → AllParse (map (λ (r : Workload × Option ℕ). r.0) runs)
    → (collect runs list none cache).1 ≡ none
unfolding collect extend first_error
collect_ok [] list cache sound u h = refl
collect_ok ((w, some n) ∷ runs) list cache sound (u, us) h = absurd (cc)
collect_ok ((w, none) ∷ runs) list cache sound (u, us) h =
    let ((out, e), sound') =
      process_images_ok w.namespace (images_of w) [] cache sound (λ i. h w i mem-cons_self) in
    let cache' = (process_images none w.namespace (images_of w) [] cache).1 in
    subst (λ r. (collect runs (extend list r) (first_error none r) cache').1 ≡ none) (sym e)
      (collect_ok runs (list ++ out) cache' sound' us (λ v i m. h v i (mem-cons_of_mem _ m)))

-- Every goroutine ends, and none finds the context done; each kind of workload can be listed, and the
-- names of all images parse.
pub record IsOrderly (world : World) : Type 0 where
  pub once : EachOnce world
  pub undisturbed :
      (calls : List Call) (items : List Workload) → IsUndisturbed (world.completions calls items)
  pub not_interrupted : (calls : List Call) → world.interrupted calls ≡ false
  pub lists :
      (calls : List Call) (kind : WorkloadKind)
      → (items : List Workload) × (world.workloads_in calls kind ≡ ok items) × AllParse items

module _ (world : World) (orderly : IsOrderly world) where
  process_workloads_ok :
      (items : List Workload) (list : ContainersList) (s : Operator)
      → IsSound s.cache
      → AllParse items
      → (out : ContainersList) × ((process_workloads world items list s).0 ≡ ok out)
  unfolding process_workloads select
  process_workloads_ok items list s sound h =
      let runs = world.completions s.calls items in
      let no_error : (collect runs list none s.cache).1 ≡ none =
        collect_ok runs list s.cache sound (orderly.undisturbed s.calls items)
          (λ w i m. h w i ((Perm.mem_iff (orderly.once s.calls items)).0 m)) in
      ((collect runs list none s.cache).0, rw (no_error, orderly.not_interrupted) refl)

  list_ok :
      (kind : WorkloadKind) (list : ContainersList) (s : Operator)
      → IsSound s.cache
      → ((out : ContainersList) × ((list_and_process_resources world kind list s).0 ≡ ok out))
        × IsSound (list_and_process_resources world kind list s).1.cache
  list_ok kind list s sound = (
    unfold list_and_process_resources in
        (let (items, found, h) = orderly.lists s.calls kind in
          let (out, e) =
            process_workloads_ok items list (record_call (Call.list_workloads kind) s) sound h in
          (out, rw found e)),
    (list_and_process_resources_lem world kind list s orderly.once sound).0,
  )

  module _ {A : Type 0} (kind : WorkloadKind) (list : ContainersList) (k : ContainersList → Op A)
      (s : Operator) where
    -- One kind of workload, and what follows.
    list_then :
        IsSound s.cache
        → ((out : ContainersList) (s' : Operator)
            → IsSound s'.cache
            → (a : A) × ((k out s').0 ≡ ok a))
        → (a : A) × (((list_and_process_resources world kind list >>= k) s).0 ≡ ok a)
    list_then sound next =
        let ((out, e), sound') = list_ok kind list s sound in
        let (a, p) = next out (list_and_process_resources world kind list s).1 sound' in (a, rw e p)

  -- In an orderly cluster the images of all workloads are listed without an error.
  pub list_all_resources_ok :
      (s : Operator)
      → IsSound s.cache
      → (out : ContainersList) × ((list_all_resources world s).0 ≡ ok out)
  unfolding list_all_resources
  list_all_resources_ok s sound = list_then deployments [] _ s sound (λ a sa ka.
      list_then jobs a _ sa ka
        (λ b sb kb. list_then daemon_sets b _ sb kb (λ c sc kc. (list_ok cron_jobs c sc kc).0)))
