-- ===== src/Progress.antt =====
-- The status strings of internal/shared/definitions.go, and the storage targets. The field
-- `Status.Progress` is a string: `unset` is the empty one, and `other` stands for a string that is
-- none of the constants.
pub mod Laws
use kubernetes_images_sync_o.Base.{ℕ, Bool, ◌&&◌, [], ◌==◌}
use kubernetes_images_sync_o.Text.{Text, codes, text_eq}

pub data Progress : Type 0 where
  unset pending starting retrying running failed success present : Progress
  other : Text → Progress

abbrev pub tag : Progress → ℕ
tag unset = 0
tag pending = 1
tag starting = 2
tag retrying = 3
tag running = 4
tag failed = 5
tag success = 6
tag present = 7
tag (other t) = 8

abbrev pub spelling : Progress → Text
spelling (other t) = t
spelling _ = []

-- `==` on two status strings
unfoldable pub progress_eq : Progress → Progress → Bool
progress_eq a b = tag a == tag b && text_eq (spelling a) (spelling b)

-- STORAGE_S3 and STORAGE_FILE
abbrev pub storage_s3 : Text
storage_s3 = codes "S3"

abbrev pub storage_file : Text
storage_file = codes "FILE"
