-- ===== src/Cluster.antt =====
-- What the controllers see of the cluster: the calls of the API server's client, the answers, and
-- the operator's own state. The API server, other clients, kubelets, the environment and the digest
-- are not part of the operator: `World` has their answers. An answer may depend on all calls made
-- so far, so a statement about every `World` is one about every behaviour of the cluster, errors
-- and concurrent changes included.
pub mod Op
pub mod Keeps
pub mod Stops
use kubernetes_images_sync_o.Base.{ℕ, ℤ, Bool, Option, List, [], ◌∷◌}
use kubernetes_images_sync_o.Text.{Text}
use kubernetes_images_sync_o.Errors.{Result}
use kubernetes_images_sync_o.Api.{Annotations, ClusterImage, ClusterImageExport}
use kubernetes_images_sync_o.Jobs.{Job}
use kubernetes_images_sync_o.Reference.{ContainerCache}

-- `types.NamespacedName`
pub record Key : Type 0 where
  pub namespace : Text
  pub name : Text

-- What the controllers read of a job: `selector` is `Spec.Selector.MatchLabels`.
pub record JobObject : Type 0 where
  pub name : Text
  pub namespace : Text
  pub selector : Annotations
  pub succeeded : ℕ
  pub failed : ℕ

-- `RestartCount` of each container status of the pod.
pub record Pod : Type 0 where
  pub restart_counts : List ℕ

-- The images of a workload's pod template, and the workload's namespace.
pub record Workload : Type 0 where
  pub namespace : Text
  pub containers : List Text
  pub init_containers : List Text
  pub ephemeral_containers : List Text

pub data WorkloadKind : Type 0 where
  deployments jobs daemon_sets cron_jobs : WorkloadKind

pub data Propagation : Type 0 where
  background foreground : Propagation

-- `r.List` of images: all of them, or those of a namespace whose `spec.exportName` is a name.
pub data Scope : Type 0 where
  everywhere : Scope
  of_export : (namespace export_name : Text) → Scope

pub data Call : Type 0 where
  get_image : Key → Call
  get_export : Key → Call
  get_job : Key → Call
  list_images : Scope → Call
  list_pods : Text → Annotations → Call
  list_jobs : Text → Annotations → Call
  list_workloads : WorkloadKind → Call
  create_image : ClusterImage → Call
  create_job : Job → Call
  update_image_status : ClusterImage → Call
  update_export_status : ClusterImageExport → Call
  update_export : ClusterImageExport → Call
  delete_job : Propagation → Key → Call
  delete_pods : Text → Annotations → Call

-- Each answer is a function of the calls made before, newest first. `written` answers the calls
-- that change the cluster. `completions` is the order in which the goroutines over listed workloads
-- end, each with the number of its containers before which it found the context done, if it did;
-- `interrupted` is whether the wait for them ended by the context. `md5_hex` is the digest of a text
-- in hexadecimal digits; the finalizer functions are those of controller-runtime.
pub record World : Type 0 where
  pub image_at : List Call → Key → Result ClusterImage
  pub export_at : List Call → Key → Result ClusterImageExport
  pub job_at : List Call → Key → Result JobObject
  pub images_in : List Call → Scope → Result (List ClusterImage)
  pub pods_in : List Call → Text → Annotations → Result (List Pod)
  pub jobs_in : List Call → Text → Annotations → Result (List JobObject)
  pub workloads_in : List Call → WorkloadKind → Result (List Workload)
  pub written : List Call → Call → Result (Unit {0})
  pub completions : List Call → List Workload → List (Workload × Option ℕ)
  pub interrupted : List Call → Bool
  pub service_account : Text
  pub unicode_lower : ℕ → ℕ
  pub md5_hex : Text → Text
  pub contains_finalizer : ClusterImageExport → Text → Bool
  pub add_finalizer : ClusterImageExport → Text → ClusterImageExport
  pub remove_finalizer : ClusterImageExport → Text → ClusterImageExport

-- The fields `ActiveJobs` and `MaxParallelJobs` of `ClusterImageReconciler`, the cache of image
-- references, and the calls made so far, newest first.
pub record Operator : Type 0 where
  pub active_jobs : ℤ
  pub max_parallel_jobs : ℤ
  pub cache : ContainerCache
  pub calls : List Call
