-- ===== src/Containers/Members.antt =====
-- Membership in the lists that the filters build.
use mathlib.Core.Logic.{∥∥₁_elim, ∥∥₁_map}
use mathlib.Core.Logic.Or
use mathlib.Core.List.{Mem, Mem-prop, mem-cons, mem-cons_self, mem-cons_of_mem, not-mem-nil}
use mathlib.Core.HLevel.{×_prop}
use kubernetes_images_sync_o.Base.{
  ◌≡◌, ◌↔◌, ap, Bool, true, inl, inr, Bool-cases, List, [], ◌∷◌, not, arith, any, keep,
}
use mathlib.Core.Bool.{Bool-set}

module _ {ℓ} {A : Type ℓ} (p : A → Bool) where
  pub mem-keep : (xs : List A) (a : A) → Mem a (keep p xs) ↔ (Mem a xs × (p a ≡ true))
  unfolding keep
  mem-keep [] a = ((λ m. absurd (not-mem-nil m)), λ m. absurd (not-mem-nil m.0))
  mem-keep (x ∷ xs) a = elim (Bool-cases (p x)) [
    | inl e ↦ rw e (
      (λ m.
          Or.elim (×_prop Mem-prop (Bool-set _ _)) (mem-cons.0 m)
            (λ q. (mem-cons.1 (Or.inl q), rw q e))
            (λ later. let (n, h) = (mem-keep xs a).0 later in (mem-cons_of_mem x n, h))),
      (λ (m, h).
          Or.elim Mem-prop (mem-cons.0 m) (λ q. mem-cons.1 (Or.inl q))
            (λ later. mem-cons_of_mem x ((mem-keep xs a).1 (later, h)))),
    )
    | inr e ↦ rw e (
      (λ m. let (n, h) = (mem-keep xs a).0 m in (mem-cons_of_mem x n, h)),
      (λ (m, h).
          Or.elim Mem-prop (mem-cons.0 m) (λ q. cc (ap p q))
            (λ later. (mem-keep xs a).1 (later, h))),
    )
  ]

  -- `any` finds an element that passes the test exactly when there is one.
  pub any_iff : (xs : List A) → (any p xs ≡ true) ↔ ∥ ((a : A) × Mem a xs × (p a ≡ true)) ∥₁
  unfolding any
  any_iff [] = ((λ h. cc), λ t. ∥∥₁_elim t (Bool-set _ _) (λ (a, m, h). absurd (not-mem-nil m)))
  any_iff (x ∷ xs) = (
    (λ h. elim (Bool-cases (p x)) [
      | inl e ↦ ∣ (x, mem-cons_self, e) ∣₁
      | inr e ↦ ∥∥₁_map ((any_iff xs).0 (ground arith)) (λ (a, m, q). (a, mem-cons_of_mem x m, q))
    ]),
    (λ t. ∥∥₁_elim t (Bool-set _ _) λ (a, m, h).
        Or.elim (Bool-set _ _) (mem-cons.0 m) (λ q. rw (← q, h))
          (λ later. let r = (any_iff xs).1 ∣ (a, later, h) ∣₁ in ground arith)),
  )

pub not_iff : (b : Bool) → (not b ≡ true) ↔ (¬ (b ≡ true))
not_iff b = ground arith
