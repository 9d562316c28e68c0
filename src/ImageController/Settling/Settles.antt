-- ===== src/ImageController/Settling/Settles.antt =====
-- When an image that is served is settled.
use kubernetes_images_sync_o.Base.{
  Bool, ◌+◌, ap, ℕ, zero, suc, ◌≤◌, ◌≡◌, refl, subst, inl, inr, List, [], ◌∷◌, ℤ, pos, ◌+ℤ◌, ◌≤ℤ◌,
  +ℤ_parts, arith,
}
use kubernetes_images_sync_o.Progress.{
  Progress, unset, pending, starting, running, retrying, failed, success, present, other,
}
use kubernetes_images_sync_o.Api.{ClusterImage, ClusterImageExport, ClusterImageStatus}
use kubernetes_images_sync_o.Cluster.{Key, World, Operator}
use kubernetes_images_sync_o.ImageController.Methods
use kubernetes_images_sync_o.ImageController.Limit.{reconcile_all}
use kubernetes_images_sync_o.ImageController.Rest.{IsAtRest}
use kubernetes_images_sync_o.ImageController.Settling.{
  is_busy, one_if, Serves, HasRoom, rounds, slots, status_now,
}
use kubernetes_images_sync_o.ImageController.Settling.Moves.{moves}

pub resting_rounds : (status : ClusterImageStatus) → IsAtRest status.progress → rounds status ≡ 0
resting_rounds status h = ground arith

pub no_rounds :
    (p : Progress) (status : ClusterImageStatus)
    → status.progress ≡ p
    → rounds status ≤ 0
    → IsAtRest p
no_rounds unset status e h = ground arith
no_rounds pending status e h = ground arith
no_rounds running status e h = ground arith
no_rounds retrying status e h = ground arith
no_rounds starting status e h = tt
no_rounds failed status e h = tt
no_rounds success status e h = tt
no_rounds present status e h = tt
no_rounds (other t) status e h = tt

-- The same request so many times.
abbrev pub repeated : Key → ℕ → List Key
repeated request zero = []
repeated request (suc n) = request ∷ repeated request n

-- The image keeps its status from here on, and a slot is free again.
abbrev pub IsSettled : ClusterImage → ℤ → Operator → Type 0
IsSettled image limit s =
    IsAtRest (status_now image s.calls).progress × (s.active_jobs +ℤ pos 1 ≤ℤ limit)

-- The room that is left after a reconciliation.
room_after :
    (limit active active' : ℤ) (m m' : ℕ)
    → active' +ℤ pos m ≤ℤ active +ℤ pos m'
    → active +ℤ pos 1 ≤ℤ limit +ℤ pos m
    → active' +ℤ pos 1 ≤ℤ limit +ℤ pos m'
room_after limit active active' m m' h k = omega (
  arith,
  +ℤ_parts active' (pos m),
  +ℤ_parts active (pos m'),
  +ℤ_parts active (pos 1),
  +ℤ_parts limit (pos m),
  +ℤ_parts active' (pos 1),
  +ℤ_parts limit (pos m'),
)

resting_room :
    (p : Progress) (limit active : ℤ)
    → IsAtRest p
    → HasRoom limit p active
    → active +ℤ pos 1 ≤ℤ limit
unfolding ◌+ℤ◌
resting_room p limit active rest room = ground arith

-- A PENDING image with room is not held back.
not_full : (limit active : ℤ) → active +ℤ pos 1 ≤ℤ limit +ℤ pos 0 → limit ≤ℤ active → ⊥
unfolding ◌+ℤ◌
not_full limit active room full = ground arith

-- How many of the reconciliations find the image's job still running.
abbrev pub busy_rounds : World → Key → ClusterImage → ℕ → Operator → ℕ
busy_rounds world request image zero s = 0
busy_rounds world request image (suc n) s =
    one_if (is_busy world request image s.calls)
    + busy_rounds world request image n (Methods.reconcile world request s).1

pub one_if-le : (b : Bool) → one_if b ≤ 1
one_if-le b = ground arith

busy_rounds-le :
    (world : World) (request : Key) (image : ClusterImage) (n : ℕ) (s : Operator)
    → busy_rounds world request image n s ≤ n
busy_rounds-le world request image zero s = omega arith
busy_rounds-le world request image (suc n) s = omega (
  arith,
  one_if-le (is_busy world request image s.calls),
  busy_rounds-le world request image n (Methods.reconcile world request s).1,
)

-- An image that is served (`Serves`: every call is answered, a job is not gone while its image is
-- RUNNING, no container is restarted while a job still runs, and restart counts stay as they are
-- read), while another job may be started, or one fewer if its own is RUNNING: whether its jobs
-- succeed or fail, whether containers were restarted by then, and whether another image holds its
-- name, its status is one that `Reconcile` leaves alone and a slot is free again, after as many
-- reconciliations as `rounds` says, those not counted that find its job still running. `rounds` is 15
-- for a new image.
pub settles :
    (world : World) (request : Key) (image : ClusterImage) (export : ClusterImageExport)
    (s : Operator) (n : ℕ)
    → Serves world request image export
    → HasRoom export.spec.max_concurrent_jobs (status_now image s.calls).progress s.active_jobs
    → rounds (status_now image s.calls) + busy_rounds world request image n s ≤ n
    → IsSettled image export.spec.max_concurrent_jobs (reconcile_all world (repeated request n) s)
settles world request image export s zero serves room few =
    let status = status_now image s.calls in
    let limit = export.spec.max_concurrent_jobs in
    let rest = no_rounds status.progress status refl (omega (arith, few)) in
    (rest, resting_room status.progress limit s.active_jobs rest room)
settles world request image export s (suc n) serves room few =
    let status = status_now image s.calls in
    let limit = export.spec.max_concurrent_jobs in
    let s' = (Methods.reconcile world request s).1 in
    let status' = status_now image s'.calls in
    elim (moves world request image export serves s) [
      | inl (fewer, counts) ↦
          settles world request image export s' n serves
            (room_after limit s.active_jobs s'.active_jobs (slots status.progress)
              (slots status'.progress) counts room)
            (omega (arith, fewer, few))
      | inr (same, active, inl rest) ↦
          settles world request image export s' n serves (rw (same, active) room) (
            rw same
              (omega (arith, resting_rounds status rest, busy_rounds-le world request image n s')))
      | inr (same, active, inr (inl (e, full))) ↦
          absurd
            (not_full limit s.active_jobs (subst (λ p. HasRoom limit p s.active_jobs) e room) full)
      | inr (same, active, inr (inr busy)) ↦
          settles world request image export s' n serves (rw (same, active) room)
            (rw same (omega (arith, few, ap (λ b. one_if b) busy)))
    ]
