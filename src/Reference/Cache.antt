-- ===== src/Reference/Cache.antt =====
-- The cache is transparent: it only ever holds what parsing would return.
use kubernetes_images_sync_o.Base.{◌≡◌, refl, sym, inl, inr, Option-cases, some, arith}
use kubernetes_images_sync_o.Errors.{Result, ok, err}
use kubernetes_images_sync_o.Text.{Text}
use kubernetes_images_sync_o.Text.Laws.{text_eq_iff}
use kubernetes_images_sync_o.Containers.{Container}
use kubernetes_images_sync_o.Reference.{
  ContainerCache, get, set, remember, parse_reference, process_container_name,
}

-- Every entry is what parsing its key returns.
pub record IsSound (cache : ContainerCache) : Type 0 where
  pub entry : (k : Text) (c : Container) → get cache k ≡ some c → parse_reference k ≡ ok c

pub IsSound-set :
    (cache : ContainerCache) (name : Text) (c : Container)
    → IsSound cache
    → parse_reference name ≡ ok c
    → IsSound (set cache name c)
unfolding get set
IsSound-set cache name c sound parsed = record {
  entry = λ k d h. ground (arith, text_eq_iff k name, parsed, sound.entry k d);
}

remember_lem :
    (name : Text) (r : Result Container) (cache : ContainerCache)
    → IsSound cache
    → parse_reference name ≡ r
    → ((remember name r cache).0 ≡ r) × IsSound (remember name r cache).1
unfolding remember
remember_lem name (ok c) cache sound parsed = (refl, IsSound-set cache name c sound parsed)
remember_lem name (err e) cache sound parsed = (refl, sound)

-- With a sound cache the result, error or not, is that of parsing, and the cache stays sound.
pub process_container_name_lem :
    (name : Text) (cache : ContainerCache)
    → IsSound cache
    → ((process_container_name name cache).0 ≡ parse_reference name)
      × IsSound (process_container_name name cache).1
unfolding process_container_name
process_container_name_lem name cache sound = elim (Option-cases (get cache name)) [
  | inl missing ↦
      rw (missing, process_container_name)
        (remember_lem name (parse_reference name) cache sound refl)
  | inr (c, hit) ↦ rw (hit, process_container_name) (sym (sound.entry name c hit), sound)
]
