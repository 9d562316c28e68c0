-- ===== src/ImageController/Fleet/Rounds.antt =====
-- One reconciliation of an image of a fleet, and one round of all of them.
use kubernetes_images_sync_o.Base.{true, ◌≡◌, ◌⊎◌, refl, ap, inl, inr, List, [], ◌∷◌, ◌≤ℤ◌, arith}
use kubernetes_images_sync_o.Progress.{pending}
use kubernetes_images_sync_o.Cluster.{World, Operator}
use kubernetes_images_sync_o.ImageController.Methods
use kubernetes_images_sync_o.ImageController.JobEnd.{own_key}
use kubernetes_images_sync_o.ImageController.Limit.{reconcile_all}
use kubernetes_images_sync_o.ImageController.Rest.{IsAtRest}
use kubernetes_images_sync_o.ImageController.Settling.{is_busy, rounds, slots, status_now}
use kubernetes_images_sync_o.ImageController.Settling.Moves.{moves}
use kubernetes_images_sync_o.ImageController.Fleet.{
  Member, In, here, there, IsApart, AllApart, ServesAll, slots_taken, keys,
}
use kubernetes_images_sync_o.ImageController.Fleet.Sums.{sum-one, In-cases}
use kubernetes_images_sync_o.ImageController.Fleet.Others.{others_kept}
use kubernetes_images_sync_o.ImageController.Fleet.Steps.{
  Counted, Counted-trans, HasReason, One, Step, Unchanged, Unchanged-Counted, counted_by, two_steps,
}

module _ (fleet : List Member) (world : World) (serves : ServesAll world fleet)
    (apart : AllApart fleet) where
  abbrev after : Member → Operator → Operator
  after m s = (Methods.reconcile world (own_key m.image) s).1

  -- All images but the one that is reconciled.
  others :
      (m : Member) (s : Operator)
      → In m fleet
      → (n : Member) → In n fleet
      → IsApart n m
      → status_now n.image (after m s).calls ≡ status_now n.image s.calls
  others m s i n j ne = others_kept world m.image m.export n.image s (serves m i).0 ne

  by_reason :
      (m : Member) (s : Operator)
      → Unchanged fleet s (after m s)
      → IsAtRest (status_now m.image s.calls).progress
        ⊎ (((status_now m.image s.calls).progress ≡ pending)
            × (m.export.spec.max_concurrent_jobs ≤ℤ s.active_jobs))
        ⊎ (is_busy world (own_key m.image) m.image s.calls ≡ true)
      → One fleet world m s (after m s)
  by_reason m s unchanged (inl rest) = inr (inl (unchanged, inl rest))
  by_reason m s unchanged (inr (inl full)) = inr (inl (unchanged, inr full))
  by_reason m s unchanged (inr (inr busy)) = inr (inr (unchanged, busy))

  -- One fleet of the images is nearer to its end, or nothing changes, for a reason.
  single :
      (m : Member) (s : Operator)
      → In m fleet
      → Counted fleet s (after m s) × One fleet world m s (after m s)
  single m s i = elim (moves world (own_key m.image) m.image m.export (serves m i).0 s) [
    | inl (fewer, counts) ↦
        let s' = after m s in
        let rounds_one =
          sum-one (λ n. rounds (status_now n.image s.calls))
            (λ n. rounds (status_now n.image s'.calls)) m fleet i apart
            (λ n j ne. ap rounds (others m s i n j ne)) in
        let slots_one =
          sum-one (λ n. slots (status_now n.image s.calls).progress)
            (λ n. slots (status_now n.image s'.calls).progress) m fleet i apart
            (λ n j ne. ap (λ st. slots st.progress) (others m s i n j ne)) in
        (
          counted_by fleet s.active_jobs s'.active_jobs (slots_taken fleet s) (slots_taken fleet s')
              (slots (status_now m.image s.calls).progress)
              (slots (status_now m.image s'.calls).progress) slots_one counts,
          inl (omega (arith, rounds_one, fewer)),
        )
    | inr (same, active, reason) ↦
        let unchanged : Unchanged fleet s (after m s) = (
          (λ n j. elim (In-cases m n fleet apart i j) [
            | inl e ↦ rw e same
            | inr ne ↦ others m s i n j ne
          ]),
          active,
        ) in
        (Unchanged-Counted fleet s (after m s) unchanged, by_reason m s unchanged reason)
  ]

  no_member : (s : Operator) (m : Member) → In m [] → HasReason fleet s m
  no_member s m i = elim i [ ]

  abbrev pub after_all : List Member → Operator → Operator
  after_all todo s = reconcile_all world (keys todo) s

  -- Some of the images, each once: the fleet is nearer to its end, or nothing changes, and each of them
  -- has a reason, or some job still runs.
  pub each_once :
      (todo : List Member) (s : Operator)
      → ((m : Member) → In m todo → In m fleet)
      → Counted fleet s (after_all todo s) × Step fleet world todo s (after_all todo s)
  each_once [] s known =
      let unchanged : Unchanged fleet s s = ((λ m i. refl), refl) in
      (Unchanged-Counted fleet s s unchanged, inr (inl (unchanged, λ m i. no_member s m i)))
  each_once (m ∷ todo) s known =
      let (counted, step) = single m s (known m here) in
      let (later, rest) = each_once todo (after m s) (λ n j. known n (there j)) in
      (
        Counted-trans fleet s.active_jobs (after m s).active_jobs
            (after_all (m ∷ todo) s).active_jobs (slots_taken fleet s)
            (slots_taken fleet (after m s)) (slots_taken fleet (after_all (m ∷ todo) s)) counted
            later,
        two_steps fleet world m todo s (after_all (m ∷ todo) s) (λ n j. known n (there j)) step
            rest,
      )
