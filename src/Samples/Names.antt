-- ===== src/Samples/Names.antt =====
-- Image names, containers and jobs at concrete values.
use mathlib.Core.List.{Nodup}
use kubernetes_images_sync_o.Base.{◌≡◌, refl, arith, inl, [], ◌∷◌, map, All, true, false, not, some}
use kubernetes_images_sync_o.Text.{Text, codes, join, text_eq}
use kubernetes_images_sync_o.Errors.{ok}
use kubernetes_images_sync_o.Containers.{Container, ContainersList, remove_duplicates}
use kubernetes_images_sync_o.Containers.Dedup.{
  first_occurrences, remove_duplicates-eq-first_occurrences,
}
use kubernetes_images_sync_o.Jobs.{
  JobParams, Volume, VolumeMount, JobContainer, create_job, setup_s3_params,
}
use kubernetes_images_sync_o.Jobs.Arguments.{has_flag, setup_s3_params_flags}
use kubernetes_images_sync_o.Jobs.Volumes.{create_job-volumes}
use kubernetes_images_sync_o.Normalize.{hyphen, is_special, normalize_image_name}
use kubernetes_images_sync_o.Normalize.Laws.{normalize_image_name-IsSafe}
use kubernetes_images_sync_o.Normalize.Words.{words, normalize_image_name-eq-join-words}
use kubernetes_images_sync_o.Reference.{parse_reference, process_container_name}
use kubernetes_images_sync_o.Reference.Cache.{IsSound, process_container_name_lem}
use kubernetes_images_sync_o.Reference.Spelling.{Spells, parse_reference_sound}
use kubernetes_images_sync_o.Reference.RoundTrip.{
  print, reference, IsReference, parse_reference-print,
}
use kubernetes_images_sync_o.Samples.Worlds.{bucket, idle, idle-IsSound}

abbrev nginx : Text
nginx = codes "nginx"

abbrev nginx_container : Container
nginx_container = reference nginx (some (codes "1")) []

nginx-IsReference : IsReference nginx (some (codes "1")) []
nginx-IsReference = record {
  named = λ e. cc;
  image_no_colon = ground arith;
  image_no_at = ground arith;
  tag_no_at = ground arith;
  sha_no_at = tt;
  sha_digest = inl refl;
}

parse_reference-print_example :
    parse_reference (print nginx (some (codes "1")) []) ≡ ok nginx_container
parse_reference-print_example = parse_reference-print nginx (some (codes "1")) [] nginx-IsReference

parse_reference_sound_example : Spells (codes "nginx:1") nginx_container
parse_reference_sound_example =
    parse_reference_sound (codes "nginx:1") nginx_container parse_reference-print_example

process_container_name_example :
    ((process_container_name (codes "nginx:1") idle.cache).0 ≡ parse_reference (codes "nginx:1"))
    × IsSound (process_container_name (codes "nginx:1") idle.cache).1
process_container_name_example =
    process_container_name_lem (codes "nginx:1") idle.cache idle-IsSound

abbrev twice : ContainersList
twice = nginx_container ∷ nginx_container ∷ []

first_occurrences_example : remove_duplicates twice ≡ first_occurrences twice
first_occurrences_example = remove_duplicates-eq-first_occurrences twice

abbrev registry_name : Text
registry_name = codes "ghcr.io/nginx@sha256:ab"

join-words_example : normalize_image_name registry_name ≡ join (hyphen ∷ []) (words registry_name)
join-words_example = normalize_image_name-eq-join-words registry_name

normalize_image_name-IsSafe_example :
    All (λ c. is_special c ≡ false) (normalize_image_name registry_name)
normalize_image_name-IsSafe_example = normalize_image_name-IsSafe registry_name

abbrev job_params : JobParams
job_params = record {
  name = codes "job";
  namespace = codes "default";
  annotations = [];
  image = codes "worker";
  commands = codes "true" ∷ [];
  owner_references = [];
  service_account = codes "worker";
  image_pull_secrets = codes "one" ∷ codes "two" ∷ [];
}

create_job-volumes_example :
    (map (λ (v : Volume). v.secret_name) (create_job job_params).template_spec.volumes
      ≡ codes "one" ∷ codes "two" ∷ [])
    × Nodup (map (λ (v : Volume). v.name) (create_job job_params).template_spec.volumes)
    × (map
          (λ (c : JobContainer). map (λ (m : VolumeMount). m.name) c.volume_mounts)
          (create_job job_params).template_spec.containers
        ≡ map (λ (v : Volume). v.name) (create_job job_params).template_spec.volumes ∷ [])
create_job-volumes_example = create_job-volumes job_params

setup_s3_params_flags_example :
    (has_flag (codes "--use_role") (setup_s3_params bucket) ≡ true)
    × (has_flag (codes "--aws_access_key_id") (setup_s3_params bucket) ≡ not true)
    × (has_flag (codes "--aws_secret_access_key") (setup_s3_params bucket) ≡ not true)
    × (has_flag (codes "--role_name") (setup_s3_params bucket)
        ≡ not (text_eq (codes "exporter") []))
    × (has_flag (codes "--endpoint_url") (setup_s3_params bucket) ≡ not (text_eq [] []))
    × (has_flag (codes "--region") (setup_s3_params bucket) ≡ not (text_eq (codes "eu-west-1") []))
setup_s3_params_flags_example = setup_s3_params_flags bucket
