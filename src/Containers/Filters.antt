-- ===== src/Containers/Filters.antt =====
-- What each filter keeps, said without its loop.
use mathlib.Core.Logic.{∥∥₁_elim, ∥∥₁_map}
use mathlib.Core.Logic.Or
use mathlib.Core.HLevel.{×_prop}
use mathlib.Core.List.{Mem, Mem-prop, mem-cons, mem-cons_of_mem, mem-append, not-mem-nil}
use kubernetes_images_sync_o.Base.{
  ℕ, ◌≡◌, ◌↔◌, refl, sym, ap, ◌∙◌, subst, true, inl, inr, Bool-cases, List, [], ◌∷◌, any,
}
use kubernetes_images_sync_o.Text.{Text, text_eq, to_lower}
use kubernetes_images_sync_o.Text.Laws.{text_eq_iff, Occurs, contains_iff}
use kubernetes_images_sync_o.Containers.{
  Container, ContainersList, matches_any, remove_excluded_images, include_only_images, appended_for,
  filter_only_from_namespaces, filter_out_whole_namespaces,
}
use kubernetes_images_sync_o.Containers.Members.{mem-keep, any_iff, not_iff}

-- The lower-case image name has the lower-case form of one of the patterns in it.
abbrev pub Matches : (ℕ → ℕ) → List Text → Container → Type 0
Matches unicode_lower patterns c = ∥ (
    (p : Text) × Mem p patterns
    × Occurs (to_lower unicode_lower p) (to_lower unicode_lower c.image)) ∥₁

matches_any_iff :
    (unicode_lower : ℕ → ℕ) (patterns : List Text) (c : Container)
    → (matches_any unicode_lower patterns c ≡ true) ↔ Matches unicode_lower patterns c
unfolding matches_any
matches_any_iff unicode_lower patterns c = (
  (λ h. ∥∥₁_map ((any_iff _ patterns).0 h) (λ (p, m, q). (p, m, (contains_iff _ _).0 q))),
  (λ t. (any_iff _ patterns).1 (∥∥₁_map t (λ (p, m, q). (p, m, (contains_iff _ _).1 q)))),
)

module _ (unicode_lower : ℕ → ℕ) (cs : ContainersList) (patterns : List Text) (c : Container) where
  pub mem-include_only_images :
      Mem c (include_only_images unicode_lower cs patterns)
      ↔ (Mem c cs × Matches unicode_lower patterns c)
  unfolding include_only_images
  mem-include_only_images = (
    (λ m.
        let (n, h) = (mem-keep _ cs c).0 m in (n, (matches_any_iff unicode_lower patterns c).0 h)),
    (λ (n, h). (mem-keep _ cs c).1 (n, (matches_any_iff unicode_lower patterns c).1 h)),
  )

  pub mem-remove_excluded_images :
      Mem c (remove_excluded_images unicode_lower cs patterns)
      ↔ (Mem c cs × (¬ Matches unicode_lower patterns c))
  unfolding remove_excluded_images
  mem-remove_excluded_images = (
    (λ m.
        let (n, h) = (mem-keep _ cs c).0 m in
        (n, λ t. (not_iff _).0 h ((matches_any_iff unicode_lower patterns c).1 t))),
    (λ (n, h).
        (mem-keep _ cs c).1
          (n, (not_iff _).1 (λ t. h ((matches_any_iff unicode_lower patterns c).0 t)))),
  )

any-text_eq_iff : (t : Text) (ts : List Text) → (any (text_eq t) ts ≡ true) ↔ Mem t ts
any-text_eq_iff t ts = (
  (λ h.
      ∥∥₁_elim ((any_iff _ ts).0 h) Mem-prop
        (λ (u, m, e). subst (λ x. Mem x ts) (sym ((text_eq_iff t u).0 e)) m)),
  (λ m. (any_iff _ ts).1 ∣ (t, m, (text_eq_iff t t).1 refl) ∣₁),
)

pub mem-filter_out_whole_namespaces :
    (cs : ContainersList) (namespaces : List Text) (c : Container)
    → Mem c (filter_out_whole_namespaces cs namespaces)
      ↔ (Mem c cs × (¬ Mem c.image_namespace namespaces))
unfolding filter_out_whole_namespaces
mem-filter_out_whole_namespaces cs namespaces c = (
  (λ m.
      let (n, h) = (mem-keep _ cs c).0 m in
      (n, λ t. (not_iff _).0 h ((any-text_eq_iff _ namespaces).1 t))),
  (λ (n, h). (mem-keep _ cs c).1 (n, (not_iff _).1 (λ t. h ((any-text_eq_iff _ namespaces).0 t)))),
)

module _ (d : Container) (c : Container) where
  mem-appended_for_sound :
      (namespaces : List Text)
      → Mem c (appended_for d namespaces)
      → Mem c (d ∷ []) × Mem c.image_namespace namespaces
  unfolding appended_for
  mem-appended_for_sound [] m = absurd (not-mem-nil m)
  mem-appended_for_sound (n ∷ namespaces) m = elim (Bool-cases (text_eq d.image_namespace n)) [
    | inl e ↦
        Or.elim (×_prop Mem-prop Mem-prop) (mem-cons.0 (rw e at m))
          (λ q. (
            mem-cons.1 (Or.inl q),
            mem-cons.1
                (Or.inl (ap (λ (x : Container). x.image_namespace) q ∙ (text_eq_iff _ n).0 e)),
          ))
          (λ later.
            let (one, ns) = mem-appended_for_sound namespaces later in (one, mem-cons_of_mem n ns))
    | inr e ↦
        let (one, ns) = mem-appended_for_sound namespaces (rw e at m) in (one, mem-cons_of_mem n ns)
  ]

  mem-appended_for_complete :
      (namespaces : List Text)
      → c ≡ d
      → Mem c.image_namespace namespaces
      → Mem c (appended_for d namespaces)
  unfolding appended_for
  mem-appended_for_complete [] q m = absurd (not-mem-nil m)
  mem-appended_for_complete (n ∷ namespaces) q m = elim (Bool-cases (text_eq d.image_namespace n)) [
    | inl e ↦ rw e (mem-cons.1 (Or.inl q))
    | inr e ↦ rw e (
        Or.elim Mem-prop (mem-cons.0 m)
          (λ same. cc (
            e,
            (text_eq_iff d.image_namespace n).1
                (sym (ap (λ (x : Container). x.image_namespace) q) ∙ same),
          ))
          (mem-appended_for_complete namespaces q))
  ]

module _ (namespaces : List Text) (c : Container) where
  pub mem-filter_only_from_namespaces :
      (cs : ContainersList)
      → Mem c (filter_only_from_namespaces cs namespaces)
        ↔ (Mem c cs × Mem c.image_namespace namespaces)
  unfolding filter_only_from_namespaces
  mem-filter_only_from_namespaces [] =
      ((λ m. absurd (not-mem-nil m)), λ m. absurd (not-mem-nil m.0))
  mem-filter_only_from_namespaces (d ∷ cs) = (
    (λ m.
        Or.elim (×_prop Mem-prop Mem-prop) (mem-append.0 m)
          (λ here.
            let (one, ns) = mem-appended_for_sound d c namespaces here in
            (
              Or.elim Mem-prop (mem-cons.0 one) (λ q. mem-cons.1 (Or.inl q))
                  (λ none. absurd (not-mem-nil none)),
              ns,
            ))
          (λ later.
            let (n, ns) = (mem-filter_only_from_namespaces cs).0 later in
            (mem-cons_of_mem d n, ns))),
    (λ (m, ns).
        Or.elim Mem-prop (mem-cons.0 m)
          (λ q. mem-append.1 (Or.inl (mem-appended_for_complete d c namespaces q ns)))
          (λ later. mem-append.1 (Or.inr ((mem-filter_only_from_namespaces cs).1 (later, ns))))),
  )
