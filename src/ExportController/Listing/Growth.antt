-- ===== src/ExportController/Listing/Growth.antt =====
-- `ListAndProcessResources` (internal/shared/k8s.go), one kind after the other: what the list grows by.
use mathlib.Core.List.{Perm}
use mathlib.Core.List.Perm
use mathlib.Core.Logic.{∥∥₁_map, ∥∥₁_map₂}
use kubernetes_images_sync_o.Base.{
  ◌≡◌, refl, sym, ap, ◌∙◌, subst, List, [], ◌∷◌, ◌++◌, arith, append_assoc,
}
use kubernetes_images_sync_o.Errors.{Result, ok, err}
use kubernetes_images_sync_o.Containers.{ContainersList}
use kubernetes_images_sync_o.Reference.Cache.{IsSound}
use kubernetes_images_sync_o.Cluster.{
  Call, Workload, WorkloadKind, deployments, jobs, daemon_sets, cron_jobs, World, Operator,
}
use kubernetes_images_sync_o.Cluster.Op.{Op, continue, ◌>>=◌}
use kubernetes_images_sync_o.Workers.{
  process_workloads, list_and_process_resources, list_all_resources,
}
use kubernetes_images_sync_o.Workers.Named.{Gathered}
use kubernetes_images_sync_o.Workers.Gathered.{EachOnce, list_and_process_resources_lem}

module _ {A B : Type 0} where
  continue_ok :
      (r : Result A) (f : A → Op B) (s : Operator) (b : B)
      → (continue r s f).0 ≡ ok b
      → (a : A) × (r ≡ ok a) × ((f a s).0 ≡ ok b)
  continue_ok (ok a) f s b h = (a, refl, h)
  continue_ok (err e) f s b h = absurd (cc)

  pub bind_ok :
      (m : Op A) (f : A → Op B) (s : Operator) (b : B)
      → ((m >>= f) s).0 ≡ ok b
      → (a : A) × ((m s).0 ≡ ok a) × ((f a (m s).1).0 ≡ ok b)
  bind_ok m f s b h = continue_ok (m s).0 f (m s).1 b h

Gathered-append :
    {ws vs : List Workload} {x y : ContainersList}
    → Gathered ws x
    → Gathered vs y
    → Gathered (ws ++ vs) (x ++ y)
Gathered-append Gathered.nil gy = gy
Gathered-append {vs = vs} {y = y} (Gathered.cons {ws = ws} {out = out} {rest = rest} named g) gy =
    subst (Gathered _) (sym (append_assoc out rest y)) (Gathered.cons named (Gathered-append g gy))

-- The list grew by the images of these workloads, in some order.
abbrev pub Grows : List Workload → ContainersList → ContainersList → Type 0
Grows ws list out = ∥ (
    (more : ContainersList) × (out ≡ list ++ more)
    × (whole : ContainersList) × Gathered ws whole
    × Perm more whole) ∥₁

Grows-trans :
    (ws vs : List Workload) (l x y : ContainersList)
    → Grows ws l x
    → Grows vs x y
    → Grows (ws ++ vs) l y
Grows-trans ws vs l x y g h =
    ∥∥₁_map₂ g h (λ (more, e, whole, gathered, p) (more', e', whole', gathered', p'). (
      more ++ more',
      e' ∙ ap (λ t. t ++ more') e ∙ append_assoc l more more',
      whole ++ whole',
      Gathered-append gathered gathered',
      Perm.append p p',
    ))

-- The workloads of the four kinds, as they are listed one kind after the other.
abbrev pub AreListed : World → List Call → List Workload → Type 0
AreListed world calls workloads =
    (d j s c : List Workload) × (world.workloads_in calls deployments ≡ ok d)
    × (world.workloads_in (Call.list_workloads deployments ∷ calls) jobs ≡ ok j)
    × (world.workloads_in (Call.list_workloads jobs ∷ Call.list_workloads deployments ∷ calls)
          daemon_sets
        ≡ ok s)
    × (world.workloads_in
          (Call.list_workloads daemon_sets
            ∷ Call.list_workloads jobs
            ∷ Call.list_workloads deployments
            ∷ calls)
          cron_jobs
        ≡ ok c)
    × (workloads ≡ d ++ (j ++ (s ++ c)))

-- The one call of a listing.
pub list_and_process_resources-calls :
    (world : World) (kind : WorkloadKind) (list : ContainersList) (s : Operator)
    → (list_and_process_resources world kind list s).1.calls ≡ Call.list_workloads kind ∷ s.calls
unfolding list_and_process_resources process_workloads
list_and_process_resources-calls world kind list s = ground arith

module _ (world : World) (once : EachOnce world) where
  -- One kind of workload.
  kind_Grows :
      (kind : WorkloadKind) (list : ContainersList) (s : Operator)
      → IsSound s.cache
      → IsSound (list_and_process_resources world kind list s).1.cache
        × ((out : ContainersList)
            → (list_and_process_resources world kind list s).0 ≡ ok out
            → (items : List Workload) × (world.workloads_in s.calls kind ≡ ok items)
              × Grows items list out)
  kind_Grows kind list s sound =
      let (kept, gathers) = list_and_process_resources_lem world kind list s once sound in
      (
        kept,
        λ out e.
            let (items, answer, more, same, found) = gathers out e in
            (
              items,
              answer,
              ∥∥₁_map found (λ (whole, gathered, p). (more, same, whole, gathered, p)),
            ),
      )

  -- One kind of workload, and what follows.
  kind_then :
      {A : Type 0} (kind : WorkloadKind) (list : ContainersList) (k : ContainersList → Op A)
      (s : Operator) (a : A)
      → IsSound s.cache
      → ((list_and_process_resources world kind list >>= k) s).0 ≡ ok a
      → (out : ContainersList) × (items : List Workload) × (world.workloads_in s.calls kind
          ≡ ok items)
        × Grows items list out
        × (s' : Operator) × IsSound s'.cache
        × (s'.calls ≡ Call.list_workloads kind ∷ s.calls)
        × ((k out s').0 ≡ ok a)
  kind_then kind list k s a sound h =
      let (out, e, rest) = bind_ok (list_and_process_resources world kind list) k s a h in
      let (kept, grows) = kind_Grows kind list s sound in
      let (items, listed, grown) = grows out e in
      let s' = (list_and_process_resources world kind list s).1 in
      (
        out,
        items,
        listed,
        grown,
        s',
        kept,
        list_and_process_resources-calls world kind list s,
        rest,
      )

  pub list_all_Grows :
      (s : Operator) (out : ContainersList)
      → IsSound s.cache
      → (list_all_resources world s).0 ≡ ok out
      → (workloads : List Workload) × AreListed world s.calls workloads × Grows workloads [] out
  unfolding list_all_resources
  list_all_Grows s out sound h =
      let (l1, d, is_d, g1, s1, sound1, c1, h1) = kind_then deployments [] _ s out sound h in
      let (l2, j, is_j, g2, s2, sound2, c2, h2) = kind_then jobs l1 _ s1 out sound1 h1 in
      let (l3, t, is_t, g3, s3, sound3, c3, h3) = kind_then daemon_sets l2 _ s2 out sound2 h2 in
      let (c, is_c, g4) = (kind_Grows cron_jobs l3 s3 sound3).1 out h3 in
      let second = c2 ∙ ap (λ calls. Call.list_workloads jobs ∷ calls) c1 in
      let third = c3 ∙ ap (λ calls. Call.list_workloads daemon_sets ∷ calls) second in
      (
        d ++ (j ++ (t ++ c)),
        (
          d,
          j,
          t,
          c,
          is_d,
          subst (λ calls. world.workloads_in calls jobs ≡ ok j) c1 is_j,
          subst (λ calls. world.workloads_in calls daemon_sets ≡ ok t) second is_t,
          subst (λ calls. world.workloads_in calls cron_jobs ≡ ok c) third is_c,
          refl,
        ),
        Grows-trans d (j ++ (t ++ c)) [] l1 out g1
            (Grows-trans j (t ++ c) l1 l2 out g2 (Grows-trans t c l2 l3 out g3 g4)),
      )
