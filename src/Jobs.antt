-- ===== src/Jobs.antt =====
-- internal/shared/jobs.go: the Kubernetes job that the operator creates, and the S3 arguments of
-- the worker's scripts. Constant fields of the job that no code of the operator reads (`TTY`, the
-- empty `Command`) are left out; `EnvVars` is always empty.
pub mod Volumes
pub mod Arguments
use kubernetes_images_sync_o.Base.{
  ℕ, suc, zero, ◌+◌, ◌/◌, ◌%◌, Bool, true, false, List, [], ◌∷◌, ◌++◌, map, ltb, if◌then◌else◌,
}
use kubernetes_images_sync_o.Text.{Text, codes, text_eq, join}
use kubernetes_images_sync_o.Api.{Annotations, OwnerReference, ClusterImageStorageS3}

pub record JobParams : Type 0 where
  pub name : Text
  pub namespace : Text
  pub annotations : Annotations
  pub image : Text
  pub commands : List Text
  pub owner_references : List OwnerReference
  pub service_account : Text
  pub image_pull_secrets : List Text

pub record Volume : Type 0 where
  pub name : Text
  pub secret_name : Text

pub record VolumeMount : Type 0 where
  pub name : Text
  pub mount_path : Text
  pub read_only : Bool

pub record JobContainer : Type 0 where
  pub name : Text
  pub image : Text
  pub args : List Text
  pub volume_mounts : List VolumeMount
  pub privileged : Bool

pub data RestartPolicy : Type 0 where
  always on_failure never : RestartPolicy

pub record PodSpec : Type 0 where
  pub restart_policy : RestartPolicy
  pub service_account_name : Text
  pub image_pull_secrets : List Text
  pub volumes : List Volume
  pub containers : List JobContainer

-- `template_labels` and `template_annotations` are those of the pod template.
pub record Job : Type 0 where
  pub name : Text
  pub namespace : Text
  pub owner_references : List OwnerReference
  pub labels : Annotations
  pub annotations : Annotations
  pub template_labels : Annotations
  pub template_annotations : Annotations
  pub template_spec : PodSpec

-- `%d` with fuel: a number below `10 ^ fuel` is printed whole.
digits : ℕ → ℕ → Text → Text
digits zero n out = out
digits (suc fuel) n out =
    let more = digits fuel (n / 10) ((n % 10 + b'0') ∷ out) in
    if ltb n 10 then (n + b'0') ∷ out else more

unfoldable pub show : ℕ → Text
unfolding digits
show n = digits (suc n) n []

unfoldable pub secret_volume : ℕ → Text → Volume
secret_volume i secret = record { name = codes "secret-" ++ show i; secret_name = secret }

unfoldable pub secret_mount : ℕ → Text → VolumeMount
secret_mount i secret = record {
  name = codes "secret-" ++ show i;
  mount_path = codes "/home/runner/.docker-secret-" ++ show i;
  read_only = true;
}

-- The loop over `params.ImagePullSecrets`, from index `i`.
unfoldable pub add_secrets : ℕ → List Text → List Volume × List VolumeMount
add_secrets i [] = ([], [])
add_secrets i (secret ∷ secrets) =
    let (volumes, mounts) = add_secrets (suc i) secrets in
    (secret_volume i secret ∷ volumes, secret_mount i secret ∷ mounts)

abbrev pub app_label : Annotations
app_label = (codes "app", codes "image-export") ∷ []

unfoldable pub create_job : JobParams → Job
create_job params =
    let (volumes, volume_mounts) = add_secrets 0 params.image_pull_secrets in
    record {
      name = params.name;
      namespace = params.namespace;
      owner_references = params.owner_references;
      labels = app_label;
      annotations = params.annotations;
      template_labels = app_label;
      template_annotations = params.annotations;
      template_spec = record {
        restart_policy = on_failure;
        service_account_name = params.service_account;
        image_pull_secrets = params.image_pull_secrets;
        volumes = volumes;
        containers =
            record {
              name = codes "exporter";
              image = params.image;
              args = codes "/bin/bash" ∷ codes "-c" ∷ join (codes " && ") params.commands ∷ [];
              volume_mounts = volume_mounts;
              privileged = true;
            }
            ∷ [];
      };
    }

-- `fmt.Sprintf("--flag='%s'", value)`
abbrev pub quoted : Text → Text → Text
quoted flag value = flag ++ (codes "='" ++ (value ++ codes "'"))

-- One optional argument of `SetupS3Params`.
abbrev pub unless_empty : Text → Text → List Text
unless_empty value argument = if text_eq value [] then [] else argument ∷ []

unfoldable pub setup_s3_params : ClusterImageStorageS3 → List Text
setup_s3_params s3 =
    (if s3.use_role
      then codes "--use_role" ∷ []
      else quoted (codes "--aws_access_key_id") s3.access_key
        ∷ quoted (codes "--aws_secret_access_key") s3.secret_key
        ∷ [])
    ++ (unless_empty s3.role_arn (quoted (codes "--role_name") s3.role_arn)
        ++ (unless_empty s3.endpoint (quoted (codes "--endpoint_url") s3.endpoint)
            ++ unless_empty s3.region (codes "--region=" ++ s3.region)))
