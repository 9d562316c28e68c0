-- ===== src/Workers/Reported.antt =====
-- What the goroutines of `ListAndProcessResources` (internal/shared/k8s.go) report.
use mathlib.Core.List.{Mem, mem-cons_self, mem-cons_of_mem}
use kubernetes_images_sync_o.Base.{
  arith, ◌<◌, length, ℕ, zero, suc, ◌≡◌, ◌⊎◌, refl, inl, inr, Option, none, some, Option-cases,
  List, [], ◌∷◌, ◌++◌, Bool, true, false,
}
use kubernetes_images_sync_o.Text.{Text}
use kubernetes_images_sync_o.Errors
use kubernetes_images_sync_o.Errors.{Error, Result, ok, err}
use kubernetes_images_sync_o.Containers.{Container, ContainersList}
use kubernetes_images_sync_o.Reference.{
  ContainerCache, get, remember, parse_reference, process_container_name,
}
use kubernetes_images_sync_o.Cluster.{Call, Workload, World, Operator}
use kubernetes_images_sync_o.Workers.{
  in_namespace, append_parsed, process_images, images_of, extend, first_error, collect,
  process_workloads, select,
}

-- One of the names does not parse, and this is reported of it.
abbrev pub IsNameError : List Text → Error → Type 0
IsNameError images e =
    (image : Text) × (x : Error) × Mem image images
    × (parse_reference image ≡ err x)
    × (e ≡ Errors.process_name image x)

-- The goroutine found the context done before one of the images.
abbrev pub IsStopped : Option ℕ → List Text → Error → Type 0
IsStopped stop images e = (n : ℕ) × (stop ≡ some n) × (n < length images) × (e ≡ Errors.cancelled)

remember-err :
    (name : Text) (r : Result Container) (cache : ContainerCache) (x : Error)
    → (remember name r cache).0 ≡ err x
    → r ≡ err x
unfolding remember
remember-err name (ok c) cache x h = cc
remember-err name (err e) cache x h = h

-- With any cache, only a name that does not parse is reported.
process_container_name-err :
    (name : Text) (cache : ContainerCache) (x : Error)
    → (process_container_name name cache).0 ≡ err x
    → parse_reference name ≡ err x
unfolding process_container_name
process_container_name-err name cache x h = elim (Option-cases (get cache name)) [
  | inl missing ↦
      remember-err name (parse_reference name) cache x (rw (missing, process_container_name) at h)
  | inr (c, hit) ↦ (let same = rw (hit, process_container_name) at h in cc)
]

further :
    (n m : ℕ) (images : List Text)
    → some n ≡ some m
    → m < length images
    → suc n < suc (length images)
further n m images same below = let e : n ≡ m = cc in omega (arith, e, below)

module _ (namespace : Text) where
  append_parsed-err :
      (stop stop' : Option ℕ) (image : Text) (images : List Text) (out : ContainersList)
      (parsed : Result Container) (next : ContainersList → Result ContainersList × ContainerCache)
      (cache : ContainerCache) (e : Error)
      → ((x : Error) → parsed ≡ err x → parse_reference image ≡ err x)
      → (IsStopped stop images e → IsStopped stop' (image ∷ images) e)
      → ((out' : ContainersList)
          → (next out').0 ≡ err e
          → IsStopped stop images e ⊎ IsNameError images e)
      → (append_parsed image namespace out parsed next cache).0 ≡ err e
      → IsStopped stop' (image ∷ images) e ⊎ IsNameError (image ∷ images) e
  append_parsed-err stop stop' image images out (ok c) next cache e named more later h =
      elim (later (out ++ in_namespace namespace c ∷ []) h) [
        | inl stopped ↦ inl (more stopped)
        | inr (i, x, m, p, q) ↦ inr (i, x, mem-cons_of_mem image m, p, q)
      ]
  append_parsed-err stop stop' image images out (err x) next cache e named more later h =
      inr (image, x, mem-cons_self, named x refl, cc)

  process_images-err :
      (stop : Option ℕ) (images : List Text) (out : ContainersList) (cache : ContainerCache)
      (e : Error)
      → (process_images stop namespace images out cache).0 ≡ err e
      → IsStopped stop images e ⊎ IsNameError images e
  unfolding process_images
  process_images-err stop [] out cache e h = absurd (cc)
  process_images-err (some zero) (image ∷ images) out cache e h = inl (0, refl, omega arith, cc)
  process_images-err (some (suc n)) (image ∷ images) out cache e h =
      let cache' = (process_container_name image cache).1 in
      append_parsed-err (some n) (some (suc n)) image images out
        (process_container_name image cache).0
        (λ out'. process_images (some n) namespace images out' cache') cache' e
        (process_container_name-err image cache)
        (λ (m, same, below, q). (suc n, refl, further n m images same below, q))
        (λ out' g. process_images-err (some n) images out' cache' e g) h
  process_images-err none (image ∷ images) out cache e h =
      let cache' = (process_container_name image cache).1 in
      append_parsed-err none none image images out (process_container_name image cache).0
        (λ out'. process_images none namespace images out' cache') cache' e
        (process_container_name-err image cache) (λ (m, same, below, q). absurd (cc))
        (λ out' g. process_images-err none images out' cache' e g) h

-- One goroutine reports this error.
abbrev pub IsRunError : Workload × Option ℕ → Error → Type 0
IsRunError (w, stop) e = IsStopped stop (images_of w) e ⊎ IsNameError (images_of w) e

first_error-cases :
    (error : Option Error) (r : Result ContainersList) (e : Error)
    → first_error error r ≡ some e
    → (error ≡ some e) ⊎ (r ≡ err e)
unfolding first_error
first_error-cases (some x) r e h = inl h
first_error-cases none (ok out) e h = absurd (cc)
first_error-cases none (err x) e h = inr (cc)

collect-error :
    (runs : List (Workload × Option ℕ)) (list : ContainersList) (error : Option Error)
    (cache : ContainerCache) (e : Error)
    → (collect runs list error cache).1 ≡ some e
    → (error ≡ some e) ⊎ ((run : Workload × Option ℕ) × Mem run runs × IsRunError run e)
unfolding collect
collect-error [] list error cache e h = inl h
collect-error ((w, stop) ∷ runs) list error cache e h =
    let run = process_images stop w.namespace (images_of w) [] cache in
    elim (collect-error runs (extend list run.0) (first_error error run.0) run.1 e h) [
      | inr (r, m, reported) ↦ inr (r, mem-cons_of_mem _ m, reported)
      | inl first ↦ elim (first_error-cases error run.0 e first) [
        | inl before ↦ inl before
        | inr own ↦ inr (
          (w, stop),
          mem-cons_self,
          process_images-err w.namespace stop (images_of w) [] cache e own,
        )
      ]
    ]

select-err :
    (interrupted : Bool) (list : ContainersList) (error : Option Error) (e : Error)
    → select interrupted list error ≡ err e
    → ((interrupted ≡ true) × (e ≡ Errors.cancelled)) ⊎ (error ≡ some e)
unfolding select
select-err true list (some x) e h = inl (refl, cc)
select-err true list none e h = inl (refl, cc)
select-err false list (some x) e h = inr (cc)
select-err false list none e h = absurd (cc)

-- The wait for the goroutines over these workloads was interrupted, or one of them reports the error.
abbrev pub IsWorkError : World → List Call → List Workload → Error → Type 0
IsWorkError world calls items e =
    ((world.interrupted calls ≡ true) × (e ≡ Errors.cancelled))
    ⊎ ((run : Workload × Option ℕ) × Mem run (world.completions calls items) × IsRunError run e)

pub process_workloads-err :
    (world : World) (items : List Workload) (list : ContainersList) (s : Operator) (e : Error)
    → (process_workloads world items list s).0 ≡ err e
    → IsWorkError world s.calls items e
unfolding process_workloads
process_workloads-err world items list s e h =
    let runs = world.completions s.calls items in
    let (out, error, cache') = collect runs list none s.cache in
    elim (select-err (world.interrupted s.calls) out error e h) [
      | inl interrupted ↦ inl interrupted
      | inr reported ↦ elim (collect-error runs list none s.cache e reported) [
        | inl before ↦ absurd (cc)
        | inr some_run ↦ inr some_run
      ]
    ]
