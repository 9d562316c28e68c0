-- ===== src/ImageController/Fleet/Steps.antt =====
-- What one reconciliation does to a fleet of images, and several one after the other.
use kubernetes_images_sync_o.Base.{
  Bool, true, false, ◌||◌, ℕ, ◌+◌, ◌<◌, ◌≡◌, ◌⊎◌, refl, subst, ap, ◌∙◌, inl, inr, List, ◌∷◌, ℤ, pos,
  ◌+ℤ◌, ◌≤ℤ◌, +ℤ_parts, arith,
}
use kubernetes_images_sync_o.Progress.{pending}
use kubernetes_images_sync_o.Cluster.{World, Operator}
use kubernetes_images_sync_o.ImageController.Methods
use kubernetes_images_sync_o.ImageController.JobEnd.{own_key}
use kubernetes_images_sync_o.ImageController.Rest.{IsAtRest}
use kubernetes_images_sync_o.ImageController.Settling.{is_busy, rounds, slots, status_now}
use kubernetes_images_sync_o.ImageController.Fleet.{
  is_busy_round, Member, In, here, there, rounds_left, slots_taken,
}
use kubernetes_images_sync_o.ImageController.Fleet.Sums.{sum-same}

module _ (fleet : List Member) where
  -- The active jobs grow by no more than the slots that the images take.
  abbrev pub Counted : Operator → Operator → Type 0
  Counted s s' =
      s'.active_jobs +ℤ pos (slots_taken fleet s) ≤ℤ s.active_jobs +ℤ pos (slots_taken fleet s')

  abbrev pub Unchanged : Operator → Operator → Type 0
  Unchanged s s' =
      ((m : Member) → In m fleet → status_now m.image s'.calls ≡ status_now m.image s.calls)
      × (s'.active_jobs ≡ s.active_jobs)

  -- Why an image keeps its status.
  abbrev pub HasReason : Operator → Member → Type 0
  HasReason s m =
      let status = status_now m.image s.calls in
      IsAtRest status.progress
      ⊎ ((status.progress ≡ pending) × (m.export.spec.max_concurrent_jobs ≤ℤ s.active_jobs))

  pub Unchanged-Counted : (s s' : Operator) → Unchanged s s' → Counted s s'
  Unchanged-Counted s s' (same, active) =
      let slots_same =
        sum-same (λ m. slots (status_now m.image s.calls).progress)
          (λ m. slots (status_now m.image s'.calls).progress) fleet
          (λ m i. ap (λ st. slots st.progress) (same m i)) in
      rw (slots_same, active) (omega arith)

  pub Unchanged-rounds :
      (s s' : Operator) → Unchanged s s' → rounds_left fleet s' ≡ rounds_left fleet s
  Unchanged-rounds s s' (same, active) =
      sum-same (λ m. rounds (status_now m.image s.calls))
        (λ m. rounds (status_now m.image s'.calls)) fleet (λ m i. ap rounds (same m i))

  pub counted_by :
      (a a' : ℤ) (t t' n n' : ℕ)
      → t' + n ≡ t + n'
      → a' +ℤ pos n ≤ℤ a +ℤ pos n'
      → a' +ℤ pos t ≤ℤ a +ℤ pos t'
  counted_by a a' t t' n n' e h =
      omega
        (arith, +ℤ_parts a' (pos n), +ℤ_parts a (pos n'), +ℤ_parts a' (pos t), +ℤ_parts a (pos t'))

  pub Counted-trans :
      (a b c : ℤ) (t u v : ℕ)
      → b +ℤ pos t ≤ℤ a +ℤ pos u
      → c +ℤ pos u ≤ℤ b +ℤ pos v
      → c +ℤ pos t ≤ℤ a +ℤ pos v
  Counted-trans a b c t u v h k = omega (
    arith,
    +ℤ_parts b (pos t),
    +ℤ_parts a (pos u),
    +ℤ_parts c (pos u),
    +ℤ_parts b (pos v),
    +ℤ_parts c (pos t),
    +ℤ_parts a (pos v),
  )

  -- What a round over these images does.
  abbrev pub Step : World → List Member → Operator → Operator → Type 0
  Step world todo s s' =
      (rounds_left fleet s' < rounds_left fleet s)
      ⊎ (Unchanged s s' × ((m : Member) → In m todo → HasReason s m))
      ⊎ (Unchanged s s' × (is_busy_round world todo s ≡ true))

  -- What one reconciliation does.
  abbrev pub One : World → Member → Operator → Operator → Type 0
  One world m s s' =
      (rounds_left fleet s' < rounds_left fleet s)
      ⊎ (Unchanged s s' × HasReason s m)
      ⊎ (Unchanged s s' × (is_busy world (own_key m.image) m.image s.calls ≡ true))

  -- Nothing changes in either, and one of them finds a job still running.
  Unchanged-trans : (s t u : Operator) → Unchanged s t → Unchanged t u → Unchanged s u
  Unchanged-trans s t u (same, active) (same', active') =
      ((λ n j. same' n j ∙ same n j), active' ∙ active)

  or_left : (a b : Bool) → a ≡ true → (a || b) ≡ true
  or_left a b e = rw e refl

  or_right : (a b : Bool) → b ≡ true → (a || b) ≡ true
  or_right true b e = refl
  or_right false b e = e

  -- A reason holds as long as nothing changes.
  reason_kept :
      (s s' : Operator) (m : Member) → In m fleet → Unchanged s s' → HasReason s' m → HasReason s m
  reason_kept s s' m i (same, active) reason =
      subst
        (λ st.
          IsAtRest st.progress
          ⊎ ((st.progress ≡ pending) × (m.export.spec.max_concurrent_jobs ≤ℤ s.active_jobs)))
        (same m i)
        (subst
          (λ a.
            IsAtRest (status_now m.image s'.calls).progress
            ⊎ (((status_now m.image s'.calls).progress ≡ pending)
                × (m.export.spec.max_concurrent_jobs ≤ℤ a)))
          active reason)

  both_reasons :
      (m : Member) (todo : List Member) (s : Operator)
      → HasReason s m
      → ((n : Member) → In n todo → HasReason s n)
      → (n : Member) → In n (m ∷ todo)
      → HasReason s n
  both_reasons m todo s reason reasons _ here = reason
  both_reasons m todo s reason reasons n (there j) = reasons n j

  pub two_steps :
      (world : World) (m : Member) (todo : List Member) (s u : Operator)
      → ((n : Member) → In n todo → In n fleet)
      → let t = (Methods.reconcile world (own_key m.image) s).1 in
        One world m s t → Step world todo t u → Step world (m ∷ todo) s u
  two_steps world m todo s u known (inl fewer) (inl fewer') = inl (omega (arith, fewer, fewer'))
  two_steps world m todo s u known (inl fewer) (inr (inl (unchanged, reasons))) =
      let t = (Methods.reconcile world (own_key m.image) s).1 in
      inl (omega (arith, fewer, Unchanged-rounds t u unchanged))
  two_steps world m todo s u known (inl fewer) (inr (inr (unchanged, busy))) =
      let t = (Methods.reconcile world (own_key m.image) s).1 in
      inl (omega (arith, fewer, Unchanged-rounds t u unchanged))
  two_steps world m todo s u known (inr (inl (unchanged, reason))) (inl fewer) =
      let t = (Methods.reconcile world (own_key m.image) s).1 in
      inl (omega (arith, fewer, Unchanged-rounds s t unchanged))
  two_steps world m todo s u known (inr (inr (unchanged, busy))) (inl fewer) =
      let t = (Methods.reconcile world (own_key m.image) s).1 in
      inl (omega (arith, fewer, Unchanged-rounds s t unchanged))
  two_steps world m todo s u known (inr (inl (unchanged, reason)))
        (inr (inl (unchanged', reasons))) =
      let t = (Methods.reconcile world (own_key m.image) s).1 in
      inr (
        inl (
          Unchanged-trans s t u unchanged unchanged',
          both_reasons m todo s reason
              (λ n j. reason_kept s t n (known n j) unchanged (reasons n j)),
        ))
  two_steps world m todo s u known (inr (inl (unchanged, reason))) (inr (inr (unchanged', busy))) =
      let t = (Methods.reconcile world (own_key m.image) s).1 in
      inr (inr (Unchanged-trans s t u unchanged unchanged', or_right _ _ busy))
  two_steps world m todo s u known (inr (inr (unchanged, busy))) (inr (inl (unchanged', reasons))) =
      let t = (Methods.reconcile world (own_key m.image) s).1 in
      inr (inr (Unchanged-trans s t u unchanged unchanged', or_left _ _ busy))
  two_steps world m todo s u known (inr (inr (unchanged, busy))) (inr (inr (unchanged', busy'))) =
      let t = (Methods.reconcile world (own_key m.image) s).1 in
      inr (inr (Unchanged-trans s t u unchanged unchanged', or_left _ _ busy))
