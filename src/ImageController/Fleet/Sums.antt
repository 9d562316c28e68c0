-- ===== src/ImageController/Fleet/Sums.antt =====
-- Sums over images, where one image changes, and which images these are.
use kubernetes_images_sync_o.Base.{ℕ, ◌+◌, ◌≤◌, ◌≡◌, refl, sym, inl, inr, ◌⊎◌, List, [], ◌∷◌, arith}
use kubernetes_images_sync_o.ImageController.Fleet.{Member, In, here, there, IsApart, AllApart, sum}

module _ (f g : Member → ℕ) where
  pub sum-same :
      (fleet : List Member) → ((m : Member) → In m fleet → g m ≡ f m) → sum g fleet ≡ sum f fleet
  unfolding sum
  sum-same [] h = refl
  sum-same (m ∷ rest) h = omega (arith, h m here, sum-same rest (λ n i. h n (there i)))

  -- All but one of the images have the same summand.
  pub sum-one :
      (m : Member) (fleet : List Member)
      → In m fleet
      → AllApart fleet
      → ((n : Member) → In n fleet → IsApart n m → g n ≡ f n)
      → sum g fleet + f m ≡ sum f fleet + g m
  unfolding sum
  sum-one m [] i apart h = elim i [ ]
  sum-one m (_ ∷ rest) here (apart, rest_apart) h =
      let same = sum-same rest (λ n i. h n (there i) (λ e. apart n i (sym e))) in
      omega (arith, same)
  sum-one m (n ∷ rest) (there i) (apart, rest_apart) h =
      let rest_one = sum-one m rest i rest_apart (λ k j. h k (there j)) in
      let same = h n here (apart m i) in omega (arith, rest_one, same)

pub sum-zero :
    (f : Member → ℕ) (fleet : List Member) → ((m : Member) → In m fleet → f m ≡ 0) → sum f fleet ≡ 0
unfolding sum
sum-zero f [] h = refl
sum-zero f (m ∷ rest) h = omega (arith, h m here, sum-zero f rest (λ n i. h n (there i)))

pub zero-sum :
    (f : Member → ℕ) (fleet : List Member) → sum f fleet ≤ 0 → (m : Member) → In m fleet → f m ≤ 0
unfolding sum
zero-sum f [] h m i = elim i [ ]
zero-sum f (_ ∷ rest) h m here = omega arith
zero-sum f (n ∷ rest) h m (there i) = zero-sum f rest (omega arith) m i

-- Two images of a fleet are one, or have different names.
pub In-cases :
    (m n : Member) (fleet : List Member)
    → AllApart fleet
    → In m fleet
    → In n fleet
    → (n ≡ m) ⊎ IsApart n m
In-cases m n [] apart i j = elim i [ ]
In-cases m n (_ ∷ rest) (apart, rest_apart) here here = inl refl
In-cases m n (_ ∷ rest) (apart, rest_apart) here (there j) = inr (λ e. apart n j (sym e))
In-cases m n (_ ∷ rest) (apart, rest_apart) (there i) here = inr (apart m i)
In-cases m n (_ ∷ rest) (apart, rest_apart) (there i) (there j) = In-cases m n rest rest_apart i j
