-- ===== src/ImageController/Backup.antt =====
-- `createBackupJob` of clusterimage_controller.go: the worker's commands and the job's parameters.
use kubernetes_images_sync_o.Base.{true, List, [], ◌∷◌, ◌++◌, if◌then◌else◌}
use kubernetes_images_sync_o.Text.{Text, codes, text_eq, join}
use kubernetes_images_sync_o.Progress.{storage_s3, storage_file}
use kubernetes_images_sync_o.Api.{ClusterImage, ClusterImageExport, OwnerReference}
use kubernetes_images_sync_o.Normalize.{normalize_image_name}
use kubernetes_images_sync_o.Jobs.{JobParams, setup_s3_params}

abbrev pub job_name : ClusterImage → Text
job_name image = codes "img-export-" ++ image.meta.name

-- The commands of the backup job.
abbrev pub backup_job_image : Text
backup_job_image = codes "ghcr.io/lukaszraczylo/kubernetes-images-sync-worker:1.0.2"

abbrev pub tar_file : Text → Text
tar_file name = codes "/tmp/" ++ (name ++ codes ".tar")

unfoldable pub export_commands : ClusterImage → ClusterImageExport → Text → List Text
export_commands image export name =
    let target =
      image.spec.export_path
      ++ (codes "/" ++ (image.spec.export_name ++ (codes "/" ++ (name ++ codes ".tar")))) in
    if text_eq image.spec.storage storage_s3
    then (codes "./export.py "
        ++ (join (codes " ") (setup_s3_params export.spec.storage.s3)
            ++ (codes " '"
                ++ (tar_file name
                    ++ (codes "' 's3://"
                        ++ (export.spec.storage.s3.bucket ++ (target ++ codes "'")))))))
      ∷ []
    else if text_eq image.spec.storage storage_file
    then (codes "./export.py " ++ (tar_file name ++ (codes " " ++ target))) ∷ []
    else []

unfoldable pub backup_commands : ClusterImage → ClusterImageExport → List Text
unfolding export_commands
backup_commands image export =
    let name = normalize_image_name image.spec.full_name in
    (codes "podman pull " ++ image.spec.full_name)
    ∷ (codes "podman save --quiet -o " ++ (tar_file name ++ (codes " " ++ image.spec.full_name)))
    ∷ (export_commands image export name ++ (codes "rm -f " ++ tar_file name) ∷ [])

unfoldable pub owner_of : ClusterImage → OwnerReference
owner_of image = record {
  api_version = image.type_meta.api_version;
  kind = image.type_meta.kind;
  name = image.meta.name;
  uid = image.meta.uid;
  block_owner_deletion = true;
  controller = true;
}

unfoldable pub backup_job : Text → ClusterImage → ClusterImageExport → JobParams
unfolding owner_of
backup_job service_account image export = record {
  name = job_name image;
  namespace = image.meta.namespace;
  annotations = image.spec.job_annotations;
  image = backup_job_image;
  commands = backup_commands image export;
  owner_references = owner_of image ∷ [];
  service_account = service_account;
  image_pull_secrets = image.spec.image_pull_secrets;
}
