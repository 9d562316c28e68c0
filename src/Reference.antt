-- ===== src/Reference.antt =====
-- internal/shared/k8s.go: image references (`ProcessContainerName`) and their cache.
pub mod RoundTrip
pub mod Spelling
pub mod Cache
use kubernetes_images_sync_o.Base.{
  ℕ, Bool, true, false, not, ◌&&◌, ◌||◌, Option, none, some, List, [], ◌∷◌, if◌then◌else◌,
}
use kubernetes_images_sync_o.Errors.{
  Error, Result, ok, err, invalid_name, invalid_sha, image_required, ◌>>=◌,
}
use kubernetes_images_sync_o.Text.{Text, codes, text_eq, split, split_first}
use kubernetes_images_sync_o.Containers.{Container}

-- `imageAndTag`: the text before the first colon, and the text after it or nothing
abbrev pub or_empty : Option Text → Text
or_empty none = []
or_empty (some tag) = tag

unfoldable pub image_and_tag : Text → Text × Text
image_and_tag part = let (image, rest) = split_first b':' part in (image, or_empty rest)

-- The check of the part behind `@`.
unfoldable pub check_sha_parts : Text → Text × Option Text → Result Text
check_sha_parts part (algorithm, none) = err (invalid_sha part)
check_sha_parts part (algorithm, some digest) =
    if not (text_eq algorithm (codes "sha")) && not (text_eq algorithm (codes "sha256"))
    then err (invalid_sha part)
    else ok part

unfoldable pub check_sha : Text → Result Text
unfolding check_sha_parts
check_sha part = check_sha_parts part (split_first b':' part)

-- The default tag, and the check that there is an image name.
unfoldable pub complete : Text → Text × Text → Text → Result Container
complete name (image, tag) sha =
    if text_eq image []
    then err image_required
    else ok (record {
      image = image;
      tag = if text_eq sha [] && text_eq tag [] then codes "latest" else tag;
      sha = sha;
      full_name = name;
      image_namespace = [];
    })

-- `strings.Split` never returns an empty list, so the last clause is `len(parts) > 2`.
unfoldable pub parse_parts : Text → List Text → Result Container
parse_parts name (part ∷ []) = complete name (image_and_tag part) []
parse_parts name (part ∷ sha_part ∷ []) = do
  sha ← check_sha sha_part
  complete name (image_and_tag part) sha
parse_parts name _ = err (invalid_name name)

-- `ProcessContainerName` past the cache. The container that Go returns beside an error is not used.
unfoldable pub parse_reference : Text → Result Container
parse_reference name = parse_parts name (split b'@' name)

-- `ContainerCache`: its map, as a function. Its mutex makes `get` and `set` atomic.
abbrev pub ContainerCache : Type 0
ContainerCache = Text → Option Container

unfoldable pub get : ContainerCache → Text → Option Container
get cache key = cache key

unfoldable pub set : ContainerCache → Text → Container → ContainerCache
set cache key value = λ k. if text_eq k key then some value else cache k

unfoldable pub remember :
    Text → Result Container → ContainerCache → Result Container × ContainerCache
unfolding set
remember name (ok container) cache = (ok container, set cache name container)
remember name (err e) cache = (err e, cache)

unfoldable pub process_container_name : Text → ContainerCache → Result Container × ContainerCache
unfolding get remember
process_container_name name cache = elim (get cache name) [
  | some container ↦ (ok container, cache)
  | none ↦ remember name (parse_reference name) cache
]
