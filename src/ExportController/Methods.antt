-- ===== src/ExportController/Methods.antt =====
-- The methods of `ClusterImageExportReconciler` (clusterimageexport_controller.go). The log has no
-- effect on the state and is left out. An object that is updated keeps what was sent.
use kubernetes_images_sync_o.Base.{
  Bool, true, false, ◌&&◌, ◌||◌, List, [], ◌∷◌, ◌++◌, take, if◌then◌else◌,
}
use kubernetes_images_sync_o.Text.{Text, codes}
use kubernetes_images_sync_o.Errors.{Result, ok, err, not_found}
use kubernetes_images_sync_o.Progress.{
  Progress, unset, pending, running, failed, success, present, progress_eq,
}
use kubernetes_images_sync_o.Api.{ClusterImage, ClusterImageExport}
use kubernetes_images_sync_o.Containers.{Container, ContainersList}
use kubernetes_images_sync_o.Reference.{ContainerCache, process_container_name}
use kubernetes_images_sync_o.Jobs.{create_job}
use kubernetes_images_sync_o.Cluster.{Key, of_export, Call, World}
use kubernetes_images_sync_o.Cluster.Op.{
  Op, pure, raise, ◌>>=◌, ◌>>◌, attempt, get_image, get_export, list_images, write,
}
use kubernetes_images_sync_o.Workers.{list_all_resources}
use kubernetes_images_sync_o.ImageController.Methods.{Outcome, done, requeue}
use kubernetes_images_sync_o.ExportController.Cleanup.{cleanup_job}
use kubernetes_images_sync_o.ExportController.Selection.{select_images}

abbrev pub finalizer : Text
finalizer = codes "finalizer.clusterimageexport.raczylo.com"

abbrev pub set_progress : Progress → ClusterImageExport → ClusterImageExport
set_progress p export = record export { progress = p }

-- `nameHash`: 14 hexadecimal digits of the digest of the export's name and the image's parts
unfoldable pub name_hash : (Text → Text) → Text → Container → Text
name_hash md5_hex export_name image =
    take 14 (md5_hex (export_name ++ (image.image ++ (image.tag ++ image.sha))))

unfoldable pub new_cluster_image : Text → ClusterImageExport → Container → ClusterImage
new_cluster_image name export image = record {
  type_meta = record { kind = []; api_version = [] };
  meta = record {
    name = name;
    namespace = export.meta.namespace;
    uid = [];
    finalizers = [];
    owner_references =
        record {
          api_version = export.type_meta.api_version;
          kind = export.type_meta.kind;
          name = export.meta.name;
          uid = export.meta.uid;
          block_owner_deletion = false;
          controller = true;
        }
        ∷ [];
    deleted = false;
  };
  spec = record {
    image = image.image;
    tag = image.tag;
    sha = image.sha;
    full_name = image.full_name;
    storage = export.spec.storage.storage_target;
    export_name = export.meta.name;
    export_path = export.spec.base_path;
    image_namespace = image.image_namespace;
    job_annotations = export.spec.job_annotations;
    image_pull_secrets = export.spec.image_pull_secrets;
  };
  status = record { progress = unset; retry_count = 0 };
}

-- The loop over `AdditionalImages`: a name that does not parse is skipped.
abbrev pub append_ok : ContainersList → Result Container → ContainersList
append_ok list (ok container) = list ++ container ∷ []
append_ok list (err e) = list

unfoldable pub add_images :
    List Text → ContainersList → ContainerCache → ContainersList × ContainerCache
add_images [] list cache = (list, cache)
add_images (image ∷ images) list cache =
    let (parsed, cache') = process_container_name image cache in
    add_images images (append_ok list parsed) cache'

-- The loop of `checkAllClusterImagesCompleted`.
abbrev pub is_complete : Progress → Bool
is_complete p = progress_eq p success || progress_eq p present

unfoldable pub all_complete : List ClusterImage → Bool
all_complete [] = true
all_complete (ci ∷ items) = is_complete ci.status.progress && all_complete items

module _ (world : World) where
  -- `listImagesInCluster`
  unfoldable pub list_images_in_cluster : ClusterImageExport → Op ContainersList
  unfolding list_all_resources select_images
  list_images_in_cluster export = do
    containers_list ← list_all_resources world
    pure (select_images world.unicode_lower export.spec containers_list)

  abbrev pub add_additional_images : ClusterImageExport → ContainersList → Op ContainersList
  add_additional_images export list s =
      let (out, cache') = add_images export.spec.additional_images list s.cache in
      (ok out, record s { cache = cache' })

  abbrev pub image_key : ClusterImageExport → Container → Key
  image_key export image = record {
    namespace = export.meta.namespace;
    name = name_hash world.md5_hex export.meta.name image;
  }

  -- One round of the loop over the images, and the later rounds. The result is whether the loop ended
  -- at an image that failed.
  abbrev pub create_or_skip :
      ClusterImageExport → Container → Result ClusterImage → Op Bool → Op Bool
  create_or_skip export image (ok existing) next =
      if progress_eq existing.status.progress failed
      then (do write world (Call.update_export_status (set_progress failed export)); pure true)
      else next
  create_or_skip export image (err not_found) next = do
    write world (
        Call.create_image
          (new_cluster_image (name_hash world.md5_hex export.meta.name image) export image))
    next
  create_or_skip export image (err e) next = raise e

  unfoldable pub create_images : ClusterImageExport → ContainersList → Op Bool
  create_images export [] = pure false
  create_images export (image ∷ images) = do
    existing ← attempt (get_image world (image_key export image))
    create_or_skip export image existing (create_images export images)

  -- `checkAllClusterImagesCompleted`
  unfoldable pub check_all_cluster_images_completed : ClusterImageExport → Op Bool
  unfolding all_complete
  check_all_cluster_images_completed export = do
    items ← list_images world (of_export export.meta.namespace export.meta.name)
    pure (all_complete items)

  abbrev pub finish : ClusterImageExport → Bool → Op Outcome
  finish export true = do
    write world (Call.update_export_status (set_progress success export))
    pure done
  finish export false = pure requeue

  -- The part of `Reconcile` behind the loop.
  unfoldable pub conclude : ClusterImageExport → Bool → Op Outcome
  unfolding check_all_cluster_images_completed
  conclude export true = pure done
  conclude export false = do
    completed ← check_all_cluster_images_completed export
    finish export completed

  -- The part of `Reconcile` from the listing of the images on.
  unfoldable pub export_images : ClusterImageExport → Op Outcome
  unfolding list_images_in_cluster create_images conclude
  export_images export = do
    found ← list_images_in_cluster export
    full_images_list ← add_additional_images export found
    write world (Call.update_export_status (set_progress running export))
    ended ← create_images (set_progress running export) full_images_list
    conclude (set_progress running export) ended

  -- The part of `Reconcile` behind the finalizer.
  unfoldable pub proceed : ClusterImageExport → Op Outcome
  unfolding export_images
  proceed export =
      if progress_eq export.progress success || progress_eq export.progress failed
      then pure done
      else if progress_eq export.progress unset
      then (do
        write world (Call.update_export_status (set_progress pending export))
        export_images (set_progress pending export))
      else export_images export

  -- `runCleanupJob`, up to the goroutine that it starts.
  unfoldable pub run_cleanup_job : ClusterImageExport → Op (Unit {0})
  run_cleanup_job export =
      write world (Call.create_job (create_job (cleanup_job world.service_account export)))

  -- `handleDeletion`
  unfoldable pub handle_deletion : ClusterImageExport → Op Outcome
  unfolding run_cleanup_job
  handle_deletion export =
      if world.contains_finalizer export finalizer
      then (do
        run_cleanup_job export
        write world (Call.update_export (world.remove_finalizer export finalizer))
        pure done)
      else pure done

  unfoldable pub with_finalizer : ClusterImageExport → Op Outcome
  unfolding proceed
  with_finalizer export = if world.contains_finalizer export finalizer then proceed export else (do
    write world (Call.update_export (world.add_finalizer export finalizer))
    proceed (world.add_finalizer export finalizer))

  unfoldable pub with_export : Result ClusterImageExport → Op Outcome
  unfolding handle_deletion with_finalizer
  with_export (err not_found) = pure done
  with_export (err e) = raise e
  with_export (ok export) =
      if export.meta.deleted then handle_deletion export else with_finalizer export

  -- `Reconcile`
  unfoldable pub reconcile : Key → Op Outcome
  unfolding with_export
  reconcile request = do found ← attempt (get_export world request); with_export found
