-- ===== src/Workers.antt =====
-- internal/shared/k8s.go: the images of the workloads of a cluster (`processContainer`,
-- `processContainers`, `ListAndProcessResources`). A goroutine over one workload collects its images
-- in a list of its own and appends that list under a mutex, so of the interleavings (`Threads`) the
-- order in which the goroutines end matters, which `World.completions` chooses. Every kind of workload
-- has a pod template, so `GetPodSpec` is never nil.
pub mod Named
pub mod Gathered
pub mod Complete
pub mod Reported
pub mod Worked
pub mod Threads
use kubernetes_images_sync_o.Base.{
  ℕ, zero, suc, Bool, true, false, Option, none, some, List, [], ◌∷◌, ◌++◌, if◌then◌else◌,
}
use kubernetes_images_sync_o.Text.{Text}
use kubernetes_images_sync_o.Errors
use kubernetes_images_sync_o.Errors.{Error, Result, ok, err}
use kubernetes_images_sync_o.Containers.{Container, ContainersList}
use kubernetes_images_sync_o.Reference.{ContainerCache, process_container_name}
use kubernetes_images_sync_o.Cluster.{
  Workload, WorkloadKind, deployments, jobs, daemon_sets, cron_jobs, World,
}
use kubernetes_images_sync_o.Cluster.Op.{Op, pure, raise, ◌>>=◌, ◌>>◌, attempt, list_workloads}

abbrev pub in_namespace : Text → Container → Container
in_namespace namespace container = record container { image_namespace = namespace }

-- The end of `processContainer` and the later containers.
abbrev pub append_parsed :
    Text
    → Text
    → ContainersList
    → Result Container
    → (ContainersList → Result ContainersList × ContainerCache)
    → ContainerCache
    → Result ContainersList × ContainerCache
append_parsed image namespace out (ok container) next cache =
    next (out ++ in_namespace namespace container ∷ [])
append_parsed image namespace out (err e) next cache = (err (Errors.process_name image e), cache)

-- `processContainers` over the images that are left. `stop` is the number of containers before the
-- context is found done.
unfoldable pub process_images :
    Option ℕ
    → Text
    → List Text
    → ContainersList
    → ContainerCache
    → Result ContainersList × ContainerCache
process_images stop namespace [] out cache = (ok out, cache)
process_images (some zero) namespace (image ∷ images) out cache = (err Errors.cancelled, cache)
process_images (some (suc n)) namespace (image ∷ images) out cache =
    let (parsed, cache') = process_container_name image cache in
    append_parsed image namespace out parsed
      (λ out'. process_images (some n) namespace images out' cache') cache'
process_images none namespace (image ∷ images) out cache =
    let (parsed, cache') = process_container_name image cache in
    append_parsed image namespace out parsed
      (λ out'. process_images none namespace images out' cache') cache'

-- The containers, the init containers and the ephemeral ones of a pod template, in this order.
abbrev pub images_of : Workload → List Text
images_of w = (w.containers ++ w.init_containers) ++ w.ephemeral_containers

-- The buffered channel holds the first error alone.
unfoldable pub first_error : Option Error → Result ContainersList → Option Error
first_error (some e) r = some e
first_error none (ok out) = none
first_error none (err e) = some e

unfoldable pub extend : ContainersList → Result ContainersList → ContainersList
extend list (ok out) = list ++ out
extend list (err e) = list

-- The goroutines, in the order in which they end.
unfoldable pub collect :
    List (Workload × Option ℕ)
    → ContainersList
    → Option Error
    → ContainerCache
    → ContainersList × Option Error × ContainerCache
unfolding process_images first_error extend
collect [] list error cache = (list, error, cache)
collect ((w, stop) ∷ rest) list error cache =
    let (r, cache') = process_images stop w.namespace (images_of w) [] cache in
    collect rest (extend list r) (first_error error r) cache'

-- The `select` behind the goroutines.
unfoldable pub select : Bool → ContainersList → Option Error → Result ContainersList
select interrupted list (some e) = if interrupted then err Errors.cancelled else err e
select interrupted list none = if interrupted then err Errors.cancelled else ok list

module _ (world : World) where
  -- The part of `ListAndProcessResources` behind the list call.
  unfoldable pub process_workloads : List Workload → ContainersList → Op ContainersList
  unfolding collect select
  process_workloads items list s =
      let (out, error, cache') = collect (world.completions s.calls items) list none s.cache in
      (select (world.interrupted s.calls) out error, record s { cache = cache' })

  abbrev pub listed : Result (List Workload) → Op (List Workload)
  listed (ok items) = pure items
  listed (err e) = raise (Errors.list_resources e)

  -- `ListAndProcessResources` for one kind of workload
  unfoldable pub list_and_process_resources : WorkloadKind → ContainersList → Op ContainersList
  unfolding process_workloads
  list_and_process_resources kind list = do
    answer ← attempt (list_workloads world kind)
    items ← listed answer
    process_workloads items list

  -- The four calls of `listImagesInCluster`, in its order.
  unfoldable pub list_all_resources : Op ContainersList
  unfolding list_and_process_resources
  list_all_resources = do
    after_deployments ← list_and_process_resources deployments []
    after_jobs ← list_and_process_resources jobs after_deployments
    after_daemon_sets ← list_and_process_resources daemon_sets after_jobs
    list_and_process_resources cron_jobs after_daemon_sets
