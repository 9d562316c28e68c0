-- ===== src/ExportController/Naming.antt =====
-- The names of the images of an export (`nameHash`), and the storage targets that jobs write to.
use kubernetes_images_sync_o.Base.{
  ℕ, ◌≡◌, ◌≢◌, ◌↔◌, ◌⊎◌, append_assoc, refl, ap, [], ◌∷◌, ◌++◌, arith,
}
use kubernetes_images_sync_o.Text.{Text}
use kubernetes_images_sync_o.Text.Laws.{text_eq_iff}
use kubernetes_images_sync_o.Progress.{storage_s3, storage_file}
use kubernetes_images_sync_o.Api.{ClusterImage, ClusterImageExport}
use kubernetes_images_sync_o.Containers.{Container}
use kubernetes_images_sync_o.ImageController.Backup.{export_commands}
use kubernetes_images_sync_o.ExportController.Cleanup.{cleanup_commands}
use kubernetes_images_sync_o.ExportController.Methods.{name_hash, new_cluster_image}

append-longer : (head : Text) (x : ℕ) (moved : Text) → head ++ x ∷ moved ≢ head
append-longer [] x moved e = absurd (cc)
append-longer (y ∷ head) x moved e = append-longer head x moved (cc)

-- Where the boundary between the name and the tag of an image lies does not count: two different images,
-- one with a piece of text at the end of its name and the other with it at the start of its tag, have
-- one name in an export, whatever the digest.
pub name_hash-collision :
    (md5_hex : Text → Text) (export_name : Text) (c : Container) (head : Text) (x : ℕ)
    (moved tag : Text)
    → let longer = record c { image = head ++ x ∷ moved; tag = tag } in
      let shorter = record c { image = head; tag = x ∷ moved ++ tag } in
      (longer ≢ shorter)
      × (name_hash md5_hex export_name longer ≡ name_hash md5_hex export_name shorter)
unfolding name_hash
name_hash-collision md5_hex export_name c head x moved tag = (
  (λ e. append-longer head x moved (ap (λ (d : Container). d.image) e)),
  rw (append_assoc head (x ∷ moved) (tag ++ c.sha), append_assoc (x ∷ moved) tag c.sha) refl,
)

-- The target of a storage that a job writes to.
abbrev pub IsTarget : Text → Type 0
IsTarget target = (target ≡ storage_s3) ⊎ (target ≡ storage_file)

export_commands_iff :
    (image : ClusterImage) (export : ClusterImageExport) (name : Text)
    → (export_commands image export name ≢ []) ↔ IsTarget image.spec.storage
unfolding export_commands
export_commands_iff image export name =
    ground (
      arith,
      text_eq_iff image.spec.storage storage_s3,
      text_eq_iff image.spec.storage storage_file,
    )

cleanup_commands_iff :
    (export : ClusterImageExport)
    → (cleanup_commands export ≢ []) ↔ IsTarget export.spec.storage.storage_target
unfolding cleanup_commands
cleanup_commands_iff export =
    let target = export.spec.storage.storage_target in
    ground (arith, text_eq_iff target storage_s3, text_eq_iff target storage_file)

-- The worker that backs up an image of an export sends the archive to a storage, and the one that cleans
-- up after the export has a command to run, just where the storage target is "S3" or "FILE" as written.
pub storage_commands_iff :
    (export : ClusterImageExport) (container : Container) (name archive : Text)
    → ((export_commands (new_cluster_image name export container) export archive ≢ [])
        ↔ IsTarget export.spec.storage.storage_target)
      × ((cleanup_commands export ≢ []) ↔ IsTarget export.spec.storage.storage_target)
unfolding new_cluster_image
storage_commands_iff export container name archive = (
  export_commands_iff (new_cluster_image name export container) export archive,
  cleanup_commands_iff export,
)
