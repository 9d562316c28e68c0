-- ===== src/Samples/Worlds.antt =====
-- A cluster in which every call is answered, with one deployment.
use mathlib.Core.List.{Perm}
use mathlib.Core.List.Perm
use kubernetes_images_sync_o.Base.{
  ℕ, ◌≡◌, refl, sym, ap, subst, true, false, Option, none, pos, List, [], ◌∷◌, map,
}
use kubernetes_images_sync_o.Text.{Text, codes}
use kubernetes_images_sync_o.Errors.{Result, ok}
use kubernetes_images_sync_o.Progress.{Progress, pending}
use kubernetes_images_sync_o.Api.{
  ClusterImage, ClusterImageExport, ClusterImageExportSpec, ClusterImageStorageS3, ObjectMeta,
  TypeMeta,
}
use kubernetes_images_sync_o.Cluster.{
  Call, JobObject, Pod, Workload, WorkloadKind, deployments, World, Operator,
}
use kubernetes_images_sync_o.Reference.Cache.{IsSound}
use kubernetes_images_sync_o.Reference.{get}
use kubernetes_images_sync_o.Workers.Gathered.{EachOnce}

abbrev pub meta : Text → ObjectMeta
meta name = record {
  name = name;
  namespace = codes "default";
  uid = codes "1";
  finalizers = [];
  owner_references = [];
  deleted = false;
}

abbrev pub no_type : TypeMeta
no_type = record { kind = []; api_version = [] }

abbrev pub bucket : ClusterImageStorageS3
bucket = record {
  bucket = codes "images";
  region = codes "eu-west-1";
  access_key = [];
  secret_key = [];
  use_role = true;
  role_arn = codes "exporter";
  endpoint = [];
  secret_name = [];
}

abbrev pub export_spec : ClusterImageExportSpec
export_spec = record {
  name = codes "nightly";
  created_at = none;
  excludes = codes "test" ∷ [];
  includes = [];
  namespaces = [];
  excluded_namespaces = codes "kube-system" ∷ [];
  base_path = codes "/backup";
  storage = record { storage_target = codes "S3"; s3 = bucket };
  job_annotations = [];
  image_pull_secrets = codes "registry" ∷ [];
  max_concurrent_jobs = pos 2;
  additional_images = [];
}

abbrev pub sample_export : ClusterImageExport
sample_export = record {
  type_meta = no_type;
  meta = meta (codes "nightly");
  spec = export_spec;
  progress = pending;
}

abbrev pub image_at_status : Text → Progress → ClusterImage
image_at_status name p = record {
  type_meta = no_type;
  meta = meta name;
  spec = record {
    image = codes "nginx";
    tag = codes "1";
    sha = [];
    full_name = codes "nginx:1";
    storage = codes "S3";
    export_name = codes "nightly";
    export_path = codes "/backup";
    image_namespace = codes "default";
    job_annotations = [];
    image_pull_secrets = [];
  };
  status = record { progress = p; retry_count = 1 };
}

abbrev pub done_job : JobObject
done_job = record {
  name = codes "img-export-a";
  namespace = codes "default";
  selector = [];
  succeeded = 1;
  failed = 0;
}

abbrev pub calm_pod : Pod
calm_pod = record { restart_counts = 0 ∷ [] }

abbrev pub deployment : Workload
deployment = record {
  namespace = codes "default";
  containers = codes "nginx:1" ∷ [];
  init_containers = [];
  ephemeral_containers = codes "busybox" ∷ [];
}

abbrev pub deployed : WorkloadKind → List Workload
deployed deployments = deployment ∷ []
deployed _ = []

-- The answers that the samples vary: the image that is read, and the images that are listed.
abbrev pub cluster : Result ClusterImage → List ClusterImage → World
cluster image images = record {
  image_at = λ calls key. image;
  export_at = λ calls key. ok sample_export;
  job_at = λ calls key. ok done_job;
  images_in = λ calls scope. ok images;
  pods_in = λ calls namespace labels. ok (calm_pod ∷ []);
  jobs_in = λ calls namespace labels. ok [];
  workloads_in = λ calls kind. ok (deployed kind);
  written = λ calls call. ok tt;
  completions = λ calls items. map (λ w. (w, none)) items;
  interrupted = λ calls. false;
  service_account = codes "worker";
  unicode_lower = λ c. c;
  md5_hex = λ t. t;
  contains_finalizer = λ export name. false;
  add_finalizer = λ export name. record export {
    meta = record export.meta { finalizers = name ∷ export.meta.finalizers };
  };
  remove_finalizer = λ export name. record export { meta = record export.meta { finalizers = [] } };
}

abbrev pub idle : Operator
idle = record { active_jobs = pos 0; max_parallel_jobs = pos 0; cache = λ k. none; calls = [] }

pub idle-IsSound : IsSound idle.cache
unfolding get
idle-IsSound = record { entry = λ k c h. cc }

same_workloads :
    (items : List Workload)
    → map (λ (r : Workload × Option ℕ). r.0) (map (λ (w : Workload). (w, none)) items) ≡ items
same_workloads [] = refl
same_workloads (w ∷ items) = ap (λ t. w ∷ t) (same_workloads items)

pub cluster-EachOnce :
    (image : Result ClusterImage) (images : List ClusterImage) → EachOnce (cluster image images)
cluster-EachOnce image images calls items =
    subst (λ t. Perm t items) (sym (same_workloads items)) (Perm.refl items)

-- The status of an export after some calls: the one written last, or PENDING.
abbrev pub export_progress : List Call → Progress
export_progress [] = pending
export_progress (Call.update_export_status w ∷ calls) = w.progress
export_progress (_ ∷ calls) = export_progress calls
