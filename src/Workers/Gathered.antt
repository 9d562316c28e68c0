-- ===== src/Workers/Gathered.antt =====
-- What `ListAndProcessResources` gathers: the images of all listed workloads, in some order.
use mathlib.Core.Logic.{∥∥₁_map}
use mathlib.Core.List.{Perm, Permᴰ, perm_append_comm}
use mathlib.Core.List.Perm
use kubernetes_images_sync_o.Base.{
  ◌≡◌, refl, sym, ◌∙◌, subst, Bool, Option, none, List, [], ◌++◌, append_assoc, arith,
}
use kubernetes_images_sync_o.Errors.{Error, Result, ok, err}
use kubernetes_images_sync_o.Containers.{ContainersList}
use kubernetes_images_sync_o.Reference.Cache.{IsSound}
use kubernetes_images_sync_o.Cluster.{Call, Workload, WorkloadKind, World, Operator}
use kubernetes_images_sync_o.Cluster.Op.{◌>>=◌, record_call}
use kubernetes_images_sync_o.Workers.{
  images_of, collect, select, process_workloads, listed, list_and_process_resources,
}
use kubernetes_images_sync_o.Workers.Named.{
  Named, Gathered, workloads, collect-IsSound, collect_lem,
}

-- The order of the workloads matters only up to the order of the containers.
Gathered-perm :
    {ws vs : List Workload} {out : ContainersList}
    → Permᴰ ws vs
    → Gathered ws out
    → (out' : ContainersList) × Gathered vs out' × Perm out out'
Gathered-perm Permᴰ.nil Gathered.nil = ([], Gathered.nil, Perm.refl [])
Gathered-perm (Permᴰ.cons e p) (Gathered.cons {out = own} named g) =
    let (out', g', q) = Gathered-perm p g in
    (
      own ++ out',
      Gathered.cons (subst (λ (w : Workload). Named w.namespace (images_of w) own) e named) g',
      Perm.append_left own q,
    )
Gathered-perm (Permᴰ.swap e f)
      (Gathered.cons {out = first} n (Gathered.cons {out = second} {rest = rest} m g)) =
    (
      second ++ (first ++ rest),
      Gathered.cons (subst (λ (w : Workload). Named w.namespace (images_of w) second) f m)
          (Gathered.cons (subst (λ (w : Workload). Named w.namespace (images_of w) first) e n) g),
      rw (← append_assoc, ← append_assoc) (Perm.append_right rest (perm_append_comm first second)),
    )
Gathered-perm (Permᴰ.trans p q) g =
    let (middle, g', r) = Gathered-perm p g in
    let (out', g'', r') = Gathered-perm q g' in (out', g'', Perm.trans r r')

-- Every goroutine ends once.
abbrev pub EachOnce : World → Type 0
EachOnce world =
    (calls : List Call) (items : List Workload)
    → Perm (workloads (world.completions calls items)) items

select_ok :
    (interrupted : Bool) (list : ContainersList) (error : Option Error) (out : ContainersList)
    → select interrupted list error ≡ ok out
    → (error ≡ none) × (list ≡ out)
unfolding select
select_ok interrupted list error out h = ground arith

-- What a listing promises: its result, its cache, for the answer to the list call.
abbrev Gathers : ContainersList → Result (List Workload) → Result ContainersList × Operator → Type 0
Gathers list answer (result, s) =
    IsSound s.cache
    × ((out : ContainersList)
        → result ≡ ok out
        → (items : List Workload) × (answer ≡ ok items)
          × (more : ContainersList) × (out ≡ list ++ more)
          × ∥ ((whole : ContainersList) × Gathered items whole × Perm more whole) ∥₁)

module _ (world : World) (list : ContainersList) (once : EachOnce world) where
  process_workloads-Gathers :
      (items : List Workload) (s : Operator)
      → IsSound s.cache
      → Gathers list (ok items) (process_workloads world items list s)
  unfolding process_workloads
  process_workloads-Gathers items s sound =
      let runs = world.completions s.calls items in
      (
        collect-IsSound runs list none s.cache sound,
        λ out e.
            let (no_error, same) =
              select_ok (world.interrupted s.calls) (collect runs list none s.cache).0 _ out e in
            let (more, grown, gathered) = collect_lem runs list s.cache sound no_error in
            (
              items,
              refl,
              more,
              sym same ∙ grown,
              ∥∥₁_map (once s.calls items) (λ p. Gathered-perm p gathered),
            ),
      )

  listed-Gathers :
      (answer : Result (List Workload)) (s : Operator)
      → IsSound s.cache
      → Gathers list answer
          ((listed world answer >>= λ items. process_workloads world items list) s)
  listed-Gathers (ok items) s sound = process_workloads-Gathers items s sound
  listed-Gathers (err e) s sound = (sound, λ out q. cc)

module _ (world : World) (kind : WorkloadKind) (list : ContainersList) (s : Operator) where
  -- Where every goroutine ends once and the cache is sound, the cache stays sound, and a listing
  -- that succeeds appends to the list just the containers of the
  -- listed workloads of the kind, each as its image name parses and with its workload's namespace, in
  -- some order; every image name parses.
  pub list_and_process_resources_lem :
      EachOnce world
      → IsSound s.cache
      → IsSound (list_and_process_resources world kind list s).1.cache
        × ((out : ContainersList)
            → (list_and_process_resources world kind list s).0 ≡ ok out
            → (items : List Workload) × (world.workloads_in s.calls kind ≡ ok items)
              × (more : ContainersList) × (out ≡ list ++ more)
              × ∥ ((whole : ContainersList) × Gathered items whole × Perm more whole) ∥₁)
  unfolding list_and_process_resources
  list_and_process_resources_lem once sound =
      listed-Gathers world list once (world.workloads_in s.calls kind)
        (record_call (Call.list_workloads kind) s) sound
