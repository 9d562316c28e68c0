-- ===== src/Containers.antt =====
-- internal/shared/definitions.go: the images found in a cluster and the filters over them.
-- `ContainersList` is its one field, a list. A `range` loop with `break` is `any`, a loop that
-- appends what passes a test is `keep`.
pub mod Members
pub mod Dedup
pub mod Filters
use kubernetes_images_sync_o.Base.{
  ℕ, Bool, true, false, not, ◌&&◌, List, [], ◌∷◌, ◌++◌, any, keep, if◌then◌else◌,
}
use kubernetes_images_sync_o.Text.{Text, text_eq, contains, to_lower}

pub record Container : Type 0 where
  pub image : Text
  pub tag : Text
  pub sha : Text
  pub full_name : Text
  pub image_namespace : Text

abbrev pub ContainersList : Type 0
ContainersList = List Container

-- `==` on the struct, by which Go's map compares its keys
unfoldable pub container_eq : Container → Container → Bool
container_eq c d =
    text_eq c.image d.image
    && text_eq c.tag d.tag
    && text_eq c.sha d.sha
    && text_eq c.full_name d.full_name
    && text_eq c.image_namespace d.image_namespace

-- The loop of `RemoveDuplicates`; `encountered` holds the keys of the map.
unfoldable pub dedup_loop : ContainersList → ContainersList → ContainersList → ContainersList
unfolding any
dedup_loop encountered result [] = result
dedup_loop encountered result (c ∷ cs) =
    let skipped = dedup_loop encountered result cs in
    let added = dedup_loop (c ∷ encountered) (result ++ c ∷ []) cs in
    if any (container_eq c) encountered then skipped else added

unfoldable pub remove_duplicates : ContainersList → ContainersList
unfolding dedup_loop
remove_duplicates containers_list = dedup_loop [] [] containers_list

-- The inner loop of `RemoveExcludedImages` and of `IncludeOnlyImages`: whether the image's name has
-- one of the patterns in it, case aside.
unfoldable pub matches_any : (ℕ → ℕ) → List Text → Container → Bool
unfolding any
matches_any unicode_lower patterns container =
    any (λ p. contains (to_lower unicode_lower container.image) (to_lower unicode_lower p)) patterns

unfoldable pub remove_excluded_images : (ℕ → ℕ) → ContainersList → List Text → ContainersList
unfolding keep matches_any
remove_excluded_images unicode_lower containers excludes =
    keep (λ c. not (matches_any unicode_lower excludes c)) containers

unfoldable pub include_only_images : (ℕ → ℕ) → ContainersList → List Text → ContainersList
unfolding keep matches_any
include_only_images unicode_lower containers includes =
    keep (matches_any unicode_lower includes) containers

-- One container is appended once for each entry of the list that names its namespace.
unfoldable pub appended_for : Container → List Text → ContainersList
appended_for container [] = []
appended_for container (namespace ∷ namespaces) =
    let rest = appended_for container namespaces in
    if text_eq container.image_namespace namespace then container ∷ rest else rest

unfoldable pub filter_only_from_namespaces : ContainersList → List Text → ContainersList
unfolding appended_for
filter_only_from_namespaces [] namespaces = []
filter_only_from_namespaces (container ∷ containers) namespaces =
    appended_for container namespaces ++ filter_only_from_namespaces containers namespaces

unfoldable pub filter_out_whole_namespaces : ContainersList → List Text → ContainersList
unfolding keep any
filter_out_whole_namespaces containers namespaces =
    keep (λ c. not (any (text_eq c.image_namespace) namespaces)) containers
