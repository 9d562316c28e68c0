-- ===== src/ExportController/Additional.antt =====
-- The additional images of an export (clusterimageexport_controller.go).
use kubernetes_images_sync_o.Base.{
  ◌≡◌, refl, sym, List, [], ◌∷◌, ◌++◌, append_assoc, append-nil, ◌∙◌, ap,
}
use kubernetes_images_sync_o.Text.{Text}
use kubernetes_images_sync_o.Errors.{Result, ok, err}
use kubernetes_images_sync_o.Containers.{Container, ContainersList}
use kubernetes_images_sync_o.Reference.{ContainerCache, parse_reference, process_container_name}
use kubernetes_images_sync_o.Reference.Cache.{IsSound, process_container_name_lem}
use kubernetes_images_sync_o.ExportController.Methods.{append_ok, add_images}

abbrev parsed_in_front : Result Container → ContainersList → ContainersList
parsed_in_front (ok container) rest = container ∷ rest
parsed_in_front (err e) rest = rest

-- What the names that parse stand for, in their order.
abbrev pub parsed : List Text → ContainersList
parsed [] = []
parsed (name ∷ names) = parsed_in_front (parse_reference name) (parsed names)

append_ok-parsed :
    (list : ContainersList) (r : Result Container) (rest : ContainersList)
    → append_ok list r ++ rest ≡ list ++ parsed_in_front r rest
append_ok-parsed list (ok c) rest = append_assoc list (c ∷ []) rest
append_ok-parsed list (err e) rest = refl

-- The loop adds those to the list, whatever sound cache it starts with.
pub add_images-parsed :
    (names : List Text) (list : ContainersList) (cache : ContainerCache)
    → IsSound cache
    → (add_images names list cache).0 ≡ list ++ parsed names
unfolding add_images
add_images-parsed [] list cache sound = sym (append-nil list)
add_images-parsed (name ∷ names) list cache sound =
    let (same, sound') = process_container_name_lem name cache sound in
    let cache' = (process_container_name name cache).1 in
    let r = (process_container_name name cache).0 in
    add_images-parsed names (append_ok list r) cache' sound'
    ∙ append_ok-parsed list r (parsed names)
    ∙ ap (λ r. list ++ parsed_in_front r (parsed names)) same
