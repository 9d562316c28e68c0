-- ===== src/Text/Laws.antt =====
-- What the text functions decide: equality, prefixes and occurrences.
use mathlib.Core.Logic.{∥∥₁_elim}
use mathlib.Core.Bool.{Bool-set}
use kubernetes_images_sync_o.Base.{
  ◌≡◌, ◌↔◌, refl, ap, true, inl, inr, Bool-cases, [], ◌∷◌, ◌++◌, arith, ==_iff,
}
use kubernetes_images_sync_o.Text.{Text, text_eq, has_prefix, contains}

pub text_eq_iff : (s t : Text) → (text_eq s t ≡ true) ↔ (s ≡ t)
unfolding text_eq
text_eq_iff [] [] = (λ _. refl, λ _. refl)
text_eq_iff [] (b ∷ t) = ((λ h. cc), (λ h. cc))
text_eq_iff (a ∷ s) [] = ((λ h. cc), (λ h. cc))
text_eq_iff (a ∷ s) (b ∷ t) = ground (arith, text_eq_iff s t, ==_iff a b)

has_prefix_sound : (s p : Text) → has_prefix s p ≡ true → (r : Text) × (s ≡ p ++ r)
unfolding has_prefix
has_prefix_sound s [] h = (s, refl)
has_prefix_sound [] (b ∷ p) h = cc
has_prefix_sound (a ∷ s) (b ∷ p) h =
    let (r, e) = has_prefix_sound s p (ground arith) in (r, ground (arith, ==_iff a b, e))

has_prefix-append : (p r : Text) → has_prefix (p ++ r) p ≡ true
unfolding has_prefix
has_prefix-append [] r = refl
has_prefix-append (a ∷ p) r = ground (arith, has_prefix-append p r, ==_iff a a)

-- `p` stands somewhere in `s`.
abbrev pub Occurs : Text → Text → Type 0
Occurs p s = ∥ ((before after : Text) × (s ≡ before ++ (p ++ after))) ∥₁

contains_sound :
    (s p : Text) → contains s p ≡ true → (before after : Text) × (s ≡ before ++ (p ++ after))
unfolding contains
contains_sound [] p h = let (r, e) = has_prefix_sound [] p h in ([], r, e)
contains_sound (a ∷ s) p h = elim (Bool-cases (has_prefix (a ∷ s) p)) [
  | inl here ↦ let (after, e) = has_prefix_sound (a ∷ s) p here in ([], after, e)
  | inr later ↦
      let (before, after, e) = contains_sound s p (ground arith) in
      (a ∷ before, after, ap (λ t. a ∷ t) e)
]

contains-append : (before p after : Text) → contains (before ++ (p ++ after)) p ≡ true
unfolding contains
contains-append [] [] [] = refl
contains-append [] [] (a ∷ after) = refl
contains-append [] (b ∷ p) after = ground (arith, has_prefix-append (b ∷ p) after)
contains-append (a ∷ before) p after = ground (arith, contains-append before p after)

-- `strings.Contains` finds exactly the texts that occur.
pub contains_iff : (s p : Text) → (contains s p ≡ true) ↔ Occurs p s
contains_iff s p = (
  (λ h. ∣ contains_sound s p h ∣₁),
  (λ o. ∥∥₁_elim o (Bool-set _ _) (λ (before, after, e). rw e (contains-append before p after))),
)
