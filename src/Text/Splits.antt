-- ===== src/Text/Splits.antt =====
-- `strings.Split` and `strings.SplitN(…, 2)`: the parts, and how they spell the text.
use kubernetes_images_sync_o.Base.{
  ℕ, ◌≡◌, ◌≢◌, refl, ap, inl, inr, Bool-cases, Option, none, some, List, [], ◌∷◌, ◌++◌, arith, ◌==◌,
  ==_iff, All,
}
use kubernetes_images_sync_o.Text.{Text, push, split, split_first, join}

-- No character of the text is the separator.
abbrev pub Lacks : ℕ → Text → Type 0
Lacks sep = All (λ c. c ≢ sep)

module _ (sep : ℕ) where
  pub split_of_Lacks : (p : Text) → Lacks sep p → split sep p ≡ p ∷ []
  unfolding split
  split_of_Lacks [] h = refl
  split_of_Lacks (c ∷ p) h = ground (arith, split_of_Lacks p h.1, ==_iff c sep)

  pub split-append : (p q : Text) → Lacks sep p → split sep (p ++ sep ∷ q) ≡ p ∷ split sep q
  unfolding split
  split-append [] q h = ground (arith, ==_iff sep sep)
  split-append (c ∷ p) q h = ground (arith, split-append p q h.1, ==_iff c sep)

  join-push :
      (c : ℕ) (ps : List Text) → ps ≢ [] → join (sep ∷ []) (push c ps) ≡ c ∷ join (sep ∷ []) ps
  unfolding push join
  join-push c [] h = absurd (h refl)
  join-push c (p ∷ []) h = refl
  join-push c (p ∷ q ∷ ps) h = refl

  join-nil : (ps : List Text) → ps ≢ [] → join (sep ∷ []) ([] ∷ ps) ≡ sep ∷ join (sep ∷ []) ps
  unfolding join
  join-nil [] h = absurd (h refl)
  join-nil (p ∷ ps) h = refl

  split-ne-nil : (s : Text) → split sep s ≢ []
  unfolding split
  split-ne-nil [] e = cc
  split-ne-nil (c ∷ s) e = elim (Bool-cases (c == sep)) [
    | inl h ↦ ground arith
    | inr h ↦ ground arith
  ]

  -- Joining the parts of a split gives the text back.
  pub join-split : (s : Text) → join (sep ∷ []) (split sep s) ≡ s
  unfolding split
  join-split [] = unfold join in refl
  join-split (c ∷ s) = ground (
    arith,
    join-split s,
    join-nil (split sep s) (split-ne-nil s),
    join-push c (split sep s) (split-ne-nil s),
    ==_iff c sep,
  )

  Lacks-push : (c : ℕ) (ps : List Text) → c ≢ sep → All (Lacks sep) ps → All (Lacks sep) (push c ps)
  unfolding push
  Lacks-push c [] h hs = ((h, tt), tt)
  Lacks-push c (p ∷ ps) h hs = ((h, hs.0), hs.1)

  -- No part of a split has the separator in it.
  pub Lacks-split : (s : Text) → All (Lacks sep) (split sep s)
  unfolding split
  Lacks-split [] = (tt, tt)
  Lacks-split (c ∷ s) = elim (Bool-cases (c == sep)) [
    | inl e ↦ rw e (tt, Lacks-split s)
    | inr e ↦ rw e (Lacks-push c _ (ground (arith, ==_iff c sep)) (Lacks-split s))
  ]

  pub split_first_of_Lacks : (p : Text) → Lacks sep p → split_first sep p ≡ (p, none)
  unfolding split_first
  split_first_of_Lacks [] h = refl
  split_first_of_Lacks (c ∷ p) h = ground (arith, split_first_of_Lacks p h.1, ==_iff c sep)

  pub split_first-append : (p q : Text) → Lacks sep p → split_first sep (p ++ sep ∷ q) ≡ (p, some q)
  unfolding split_first
  split_first-append [] q h = ground (arith, ==_iff sep sep)
  split_first-append (c ∷ p) q h = ground (arith, split_first-append p q h.1, ==_iff c sep)

  -- What follows the first separator, with the separator.
  abbrev pub tail_of : Option Text → Text
  tail_of none = []
  tail_of (some q) = sep ∷ q

  pub split_first_lem :
      (s : Text)
      → let (before, after) = split_first sep s in (s ≡ before ++ tail_of after) × Lacks sep before
  unfolding split_first
  split_first_lem [] = (refl, tt)
  split_first_lem (c ∷ s) = elim (Bool-cases (c == sep)) [
    | inl e ↦ rw e (ap (λ x. x ∷ s) ((==_iff c sep).0 e), tt)
    | inr e ↦
        let (spelt, lacks) = split_first_lem s in
        rw e (ap (λ t. c ∷ t) spelt, (ground (arith, ==_iff c sep), lacks))
  ]
