-- ===== src/Containers/Dedup.antt =====
-- `RemoveDuplicates` keeps the first occurrence of every container.
use mathlib.Core.Logic.Or
use mathlib.Core.List.{Mem, Mem-prop, mem-cons, mem-cons_of_mem, Nodup, Nodup-nil, Nodup-cons}
use kubernetes_images_sync_o.Base.{
  ◌≡◌, ◌↔◌, refl, sym, ap, ◌∙◌, Bool, true, not, ◌&&◌, inl, inr, Bool-cases, List, [], ◌∷◌, ◌++◌,
  append_assoc, append-nil, arith, any, keep,
}
use kubernetes_images_sync_o.Text.Laws.{text_eq_iff}
use kubernetes_images_sync_o.Containers.{
  Container, ContainersList, container_eq, dedup_loop, remove_duplicates,
}
use kubernetes_images_sync_o.Containers.Members.{mem-keep}

pub container_eq_iff : (c d : Container) → (container_eq c d ≡ true) ↔ (c ≡ d)
unfolding container_eq
container_eq_iff c d = ground (
  arith,
  text_eq_iff c.image d.image,
  text_eq_iff c.tag d.tag,
  text_eq_iff c.sha d.sha,
  text_eq_iff c.full_name d.full_name,
  text_eq_iff c.image_namespace d.image_namespace,
)

-- The list without the later copies of each element.
pub first_occurrences : ContainersList → ContainersList
first_occurrences [] = []
first_occurrences (c ∷ cs) = c ∷ keep (λ d. not (container_eq d c)) (first_occurrences cs)

abbrev unseen : ContainersList → Container → Bool
unseen encountered d = not (any (container_eq d) encountered)

module _ {ℓ} {A : Type ℓ} where
  keep-keep :
      (p q r : A → Bool) (xs : List A)
      → ((a : A) → (q a && p a) ≡ r a)
      → keep p (keep q xs) ≡ keep r xs
  unfolding keep
  keep-keep p q r [] h = refl
  keep-keep p q r (x ∷ xs) h = ground (arith, keep-keep p q r xs h, h x)

module _ (encountered : ContainersList) (c : Container) where
  skip_seen :
      any (container_eq c) encountered ≡ true
      → (d : Container) → (not (container_eq d c) && unseen encountered d) ≡ unseen encountered d
  skip_seen e d = elim (Bool-cases (container_eq d c)) [
    | inl same ↦ rw same (sym (rw ((container_eq_iff d c).0 same) (ap not e)))
    | inr other ↦ rw other
  ]

  skip_new :
      (d : Container)
      → (not (container_eq d c) && unseen encountered d) ≡ unseen (c ∷ encountered) d
  unfolding any
  skip_new d = ground arith

dedup_loop_lem :
    (encountered result cs : ContainersList)
    → dedup_loop encountered result cs ≡ result ++ keep (unseen encountered) (first_occurrences cs)
unfolding dedup_loop first_occurrences keep
dedup_loop_lem encountered result [] = sym (append-nil result)
dedup_loop_lem encountered result (c ∷ cs) = elim (Bool-cases (any (container_eq c) encountered)) [
  | inl seen ↦
      rw (seen, dedup_loop_lem encountered result cs)
        (ap (λ t. result ++ t)
          (sym (keep-keep _ _ _ (first_occurrences cs) (skip_seen encountered c seen))))
  | inr new ↦
      rw (new, dedup_loop_lem (c ∷ encountered) (result ++ c ∷ []) cs, append_assoc)
        (ap (λ t. result ++ c ∷ t)
          (sym (keep-keep _ _ _ (first_occurrences cs) (skip_new encountered c))))
]

keep_all : (cs : ContainersList) → keep (unseen []) cs ≡ cs
unfolding keep any
keep_all [] = refl
keep_all (c ∷ cs) = ap (λ t. c ∷ t) (keep_all cs)

-- `RemoveDuplicates` returns the first occurrence of each container, in the order of the list.
pub remove_duplicates-eq-first_occurrences :
    (cs : ContainersList) → remove_duplicates cs ≡ first_occurrences cs
unfolding remove_duplicates
remove_duplicates-eq-first_occurrences cs =
    dedup_loop_lem [] [] cs ∙ keep_all (first_occurrences cs)

-- Filtering keeps a list free of duplicates.
Nodup-keep {ℓ} : {A : Type ℓ} (p : A → Bool) (xs : List A) → Nodup xs → Nodup (keep p xs)
unfolding keep
Nodup-keep p [] h = h
Nodup-keep p (x ∷ xs) h =
    let (new, rest) = Nodup-cons.0 h in
    elim (Bool-cases (p x)) [
      | inl e ↦ rw e (Nodup-cons.1 ((λ m. new ((mem-keep p xs x).0 m).0), Nodup-keep p xs rest))
      | inr e ↦ rw e (Nodup-keep p xs rest)
    ]

not-mem-keep :
    (c : Container) (cs : ContainersList) → ¬ Mem c (keep (λ d. not (container_eq d c)) cs)
not-mem-keep c cs m =
    let (n, h) = (mem-keep _ cs c).0 m in let same = (container_eq_iff c c).1 refl in ground arith

Nodup-first_occurrences : (cs : ContainersList) → Nodup (first_occurrences cs)
unfolding first_occurrences
Nodup-first_occurrences [] = Nodup-nil
Nodup-first_occurrences (c ∷ cs) =
    Nodup-cons.1 (not-mem-keep c _, Nodup-keep _ _ (Nodup-first_occurrences cs))

mem-first_occurrences :
    (cs : ContainersList) (a : Container) → Mem a (first_occurrences cs) ↔ Mem a cs
unfolding first_occurrences
mem-first_occurrences [] a = ((λ m. m), (λ m. m))
mem-first_occurrences (c ∷ cs) a = (
  (λ m.
      Or.elim Mem-prop (mem-cons.0 m) (λ e. mem-cons.1 (Or.inl e))
        (λ later. mem-cons_of_mem c ((mem-first_occurrences cs a).0 ((mem-keep _ _ a).0 later).0))),
  (λ m.
      Or.elim Mem-prop (mem-cons.0 m) (λ e. mem-cons.1 (Or.inl e))
        (λ later. elim (Bool-cases (container_eq a c)) [
          | inl same ↦ mem-cons.1 (Or.inl ((container_eq_iff a c).0 same))
          | inr other ↦
              mem-cons_of_mem c
                ((mem-keep _ _ a).1 ((mem-first_occurrences cs a).1 later, ap not other))
        ])),
)

-- `RemoveDuplicates` returns each container of the list, once, and no other.
pub remove_duplicates_lem :
    (cs : ContainersList)
    → Nodup (remove_duplicates cs) × ((a : Container) → Mem a (remove_duplicates cs) ↔ Mem a cs)
remove_duplicates_lem cs =
    rw remove_duplicates-eq-first_occurrences (Nodup-first_occurrences cs, mem-first_occurrences cs)
