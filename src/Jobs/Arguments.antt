-- ===== src/Jobs/Arguments.antt =====
-- Which arguments the worker's scripts get from an S3 configuration.
use kubernetes_images_sync_o.Base.{◌≡◌, Bool, not, List, [], arith, any}
use kubernetes_images_sync_o.Text.{Text, codes, text_eq, has_prefix}
use kubernetes_images_sync_o.Api.{ClusterImageStorageS3}
use kubernetes_images_sync_o.Jobs.{setup_s3_params}

-- Some argument begins with the flag.
abbrev pub has_flag : Text → List Text → Bool
has_flag flag arguments = any (λ a. has_prefix a flag) arguments

module _ (s3 : ClusterImageStorageS3) where
  -- The credentials are passed exactly when no role is used, the role's flag exactly when one is,
  -- and the role name, the endpoint and the region exactly when they are set, with a role or without. (The
  -- worker's validate_args refuses a role beside an endpoint.)
  pub setup_s3_params_flags :
      let args = setup_s3_params s3 in
      (has_flag (codes "--use_role") args ≡ s3.use_role)
      × (has_flag (codes "--aws_access_key_id") args ≡ not s3.use_role)
      × (has_flag (codes "--aws_secret_access_key") args ≡ not s3.use_role)
      × (has_flag (codes "--role_name") args ≡ not (text_eq s3.role_arn []))
      × (has_flag (codes "--endpoint_url") args ≡ not (text_eq s3.endpoint []))
      × (has_flag (codes "--region") args ≡ not (text_eq s3.region []))
  unfolding setup_s3_params any has_prefix
  setup_s3_params_flags = ground arith
