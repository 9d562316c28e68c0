-- ===== src/ImageController/Fleet/Settles.antt =====
-- When all images of a fleet are settled.
use kubernetes_images_sync_o.Base.{
  ap, ◌+◌, ℕ, zero, suc, ◌≤◌, ◌≡◌, ◌⊎◌, refl, inl, inr, List, ℤ, pos, ◌+ℤ◌, ◌≤ℤ◌, +ℤ_parts, arith,
}
use kubernetes_images_sync_o.Progress.{pending, Progress}
use kubernetes_images_sync_o.Cluster.{World, Operator}
use kubernetes_images_sync_o.ImageController.Limit.{reconcile_all}
use kubernetes_images_sync_o.ImageController.Rest.{IsAtRest}
use kubernetes_images_sync_o.ImageController.Settling.{one_if, rounds, slots, status_now}
use kubernetes_images_sync_o.ImageController.Settling.Settles.{one_if-le, resting_rounds, no_rounds}
use kubernetes_images_sync_o.ImageController.Fleet.{
  is_busy_round, busy_rounds, keys, Member, In, AllApart, ServesAll, rounds_left, slots_taken,
  round_robin, AllSettled,
}
use kubernetes_images_sync_o.ImageController.Fleet.Sums.{sum-zero, zero-sum}
use kubernetes_images_sync_o.ImageController.Fleet.Rounds.{each_once, after_all}
use kubernetes_images_sync_o.ImageController.Fleet.Steps.{HasReason, Unchanged-rounds}

-- No more jobs count as active than images are RUNNING.
abbrev pub IsCounted : List Member → Operator → Type 0
IsCounted fleet s = s.active_jobs ≤ℤ pos (slots_taken fleet s)

counted_after : (a a' : ℤ) (t t' : ℕ) → a' +ℤ pos t ≤ℤ a +ℤ pos t' → a ≤ℤ pos t → a' ≤ℤ pos t'
counted_after a a' t t' h k = omega (arith, +ℤ_parts a' (pos t), +ℤ_parts a (pos t'))

no_slot : (p : Progress) → IsAtRest p ⊎ (p ≡ pending) → slots p ≡ 0
no_slot p h = ground arith

reason-slots :
    (fleet : List Member) (s : Operator) (m : Member)
    → HasReason fleet s m
    → slots (status_now m.image s.calls).progress ≡ 0
reason-slots fleet s m (inl rest) = no_slot (status_now m.image s.calls).progress (inl rest)
reason-slots fleet s m (inr (e, full)) = no_slot (status_now m.image s.calls).progress (inr e)

-- A limit of one or more is not reached while no image is RUNNING.
not_reached :
    (limit active : ℤ) (t : ℕ) → pos 1 ≤ℤ limit → limit ≤ℤ active → active ≤ℤ pos t → t ≡ 0 → ⊥
not_reached limit active t one full counted none = omega arith

module _ (fleet : List Member) (world : World) (serves : ServesAll world fleet) (s : Operator)
    (counted : IsCounted fleet s) where
  -- If all images have a reason to keep their status, it is that they are settled.
  reasons_settled : ((m : Member) → In m fleet → HasReason fleet s m) → AllSettled fleet s
  reasons_settled reasons m i = elim (reasons m i) [
    | inl rest ↦ rest
    | inr (e, full) ↦
        let free =
          sum-zero (λ n. slots (status_now n.image s.calls).progress) fleet
            (λ n j. reason-slots fleet s n (reasons n j)) in
        absurd (
          not_reached m.export.spec.max_concurrent_jobs s.active_jobs (slots_taken fleet s)
            (serves m i).1 full counted free)
  ]

settled_rounds : (fleet : List Member) (s : Operator) → AllSettled fleet s → rounds_left fleet s ≡ 0
settled_rounds fleet s settled =
    sum-zero (λ m. rounds (status_now m.image s.calls)) fleet
      (λ m i. resting_rounds (status_now m.image s.calls) (settled m i))

busy_rounds-le :
    (world : World) (fleet : List Member) (n : ℕ) (s : Operator) → busy_rounds world fleet n s ≤ n
busy_rounds-le world fleet zero s = omega arith
busy_rounds-le world fleet (suc n) s = omega (
  arith,
  one_if-le (is_busy_round world fleet s),
  busy_rounds-le world fleet n (reconcile_all world (keys fleet) s),
)

-- Images with different names that are served (`Serves`: every call is answered, a job is not gone
-- while its image is RUNNING, no container is restarted while a job still runs, and restart counts
-- stay as they are read), each with an export that allows a job or more, and with no more active jobs
-- at first than images are RUNNING: however the images compete for slots, whether their jobs succeed
-- or fail, and whether one holds another's name, every image is settled and no job counts as active
-- any more after as many rounds over all of them as their `rounds` add up to, 15 for each new image,
-- those rounds not counted in which some job is found still running.
pub fleet_settles :
    (world : World) (fleet : List Member) (s : Operator) (n : ℕ)
    → ServesAll world fleet
    → AllApart fleet
    → IsCounted fleet s
    → rounds_left fleet s + busy_rounds world fleet n s ≤ n
    → let s' = round_robin world fleet n s in AllSettled fleet s' × (s'.active_jobs ≤ℤ pos 0)
fleet_settles world fleet s zero serves apart counted few =
    let none_left : rounds_left fleet s ≤ 0 = omega (arith, few) in
    let settled : AllSettled fleet s = λ m i.
      let status = status_now m.image s.calls in
      no_rounds status.progress status refl
        (zero-sum (λ k. rounds (status_now k.image s.calls)) fleet none_left m i) in
    let free =
      sum-zero (λ m. slots (status_now m.image s.calls).progress) fleet
        (λ m i. no_slot (status_now m.image s.calls).progress (inl (settled m i))) in
    (settled, omega (arith, counted, free))
fleet_settles world fleet s (suc n) serves apart counted few =
    let s' = after_all fleet world serves apart fleet s in
    let (counts, step) = each_once fleet world serves apart fleet s (λ m i. i) in
    let counted' =
      counted_after s.active_jobs s'.active_jobs (slots_taken fleet s) (slots_taken fleet s') counts
        counted in
    elim step [
      | inl fewer ↦ fleet_settles world fleet s' n serves apart counted' (omega (arith, fewer, few))
      | inr (inl (unchanged, reasons)) ↦
          let none =
            settled_rounds fleet s (reasons_settled fleet world serves s counted reasons) in
          fleet_settles world fleet s' n serves apart counted' (
            omega
              (arith, Unchanged-rounds fleet s s' unchanged, none, busy_rounds-le world fleet n s'))
      | inr (inr (unchanged, busy)) ↦
          fleet_settles world fleet s' n serves apart counted'
            (omega (arith, few, Unchanged-rounds fleet s s' unchanged, ap (λ b. one_if b) busy))
    ]
