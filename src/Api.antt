-- ===== src/Api.antt =====
-- api/raczylo.com/v1: the two custom resources. Of the object metadata the fields are modelled that
-- the operator reads or writes. A map of annotations is an association list, a list of
-- `LocalObjectReference` is the list of the names in it. A list of resources is the list of its `Items`.
use kubernetes_images_sync_o.Base.{ℕ, ℤ, Bool, Option, List}
use kubernetes_images_sync_o.Text.{Text}
use kubernetes_images_sync_o.Progress.{Progress}

abbrev pub Annotations : Type 0
Annotations = List (Text × Text)

pub record TypeMeta : Type 0 where
  pub kind : Text
  pub api_version : Text

-- `block_owner_deletion` and `controller` are false where they are not set.
pub record OwnerReference : Type 0 where
  pub api_version : Text
  pub kind : Text
  pub name : Text
  pub uid : Text
  pub block_owner_deletion : Bool
  pub controller : Bool

-- `deleted` is whether `DeletionTimestamp` is set.
pub record ObjectMeta : Type 0 where
  pub name : Text
  pub namespace : Text
  pub uid : Text
  pub finalizers : List Text
  pub owner_references : List OwnerReference
  pub deleted : Bool

pub record ClusterImageSpec : Type 0 where
  pub image : Text
  pub tag : Text
  pub sha : Text
  pub full_name : Text
  pub storage : Text
  pub export_name : Text
  pub export_path : Text
  pub image_namespace : Text
  pub job_annotations : Annotations
  pub image_pull_secrets : List Text

-- `RetryCount` starts at 0 and only grows.
pub record ClusterImageStatus : Type 0 where
  pub progress : Progress
  pub retry_count : ℕ

pub record ClusterImage : Type 0 where
  pub type_meta : TypeMeta
  pub meta : ObjectMeta
  pub spec : ClusterImageSpec
  pub status : ClusterImageStatus

pub record ClusterImageStorageS3 : Type 0 where
  pub bucket : Text
  pub region : Text
  pub access_key : Text
  pub secret_key : Text
  pub use_role : Bool
  pub role_arn : Text
  pub endpoint : Text
  pub secret_name : Text

pub record ClusterImageStorageSpec : Type 0 where
  pub storage_target : Text
  pub s3 : ClusterImageStorageS3

-- `CreatedAt` is in seconds, or none for the zero time.
pub record ClusterImageExportSpec : Type 0 where
  pub name : Text
  pub created_at : Option ℕ
  pub excludes : List Text
  pub includes : List Text
  pub namespaces : List Text
  pub excluded_namespaces : List Text
  pub base_path : Text
  pub storage : ClusterImageStorageSpec
  pub job_annotations : Annotations
  pub image_pull_secrets : List Text
  pub max_concurrent_jobs : ℤ
  pub additional_images : List Text

pub record ClusterImageExport : Type 0 where
  pub type_meta : TypeMeta
  pub meta : ObjectMeta
  pub spec : ClusterImageExportSpec
  pub progress : Progress
