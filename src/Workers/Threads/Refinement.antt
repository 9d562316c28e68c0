-- ===== src/Workers/Threads/Refinement.antt =====
-- Every interleaving of the goroutines returns what they return one after the other, in some order:
-- `World.completions` and `World.interrupted` lose no behaviour of `ListAndProcessResources`.
use mathlib.Core.List.{Perm, map-append}
use mathlib.Core.List.Perm
use kubernetes_images_sync_o.Base.{
  ℕ, ◌≡◌, refl, ap, ◌∙◌, Bool, true, false, Option, none, some, List, [], ◌∷◌, ◌++◌, map, inl, inr,
  subst,
}
use kubernetes_images_sync_o.Errors
use kubernetes_images_sync_o.Errors.{Error, Result, ok, err}
use kubernetes_images_sync_o.Containers.{ContainersList}
use kubernetes_images_sync_o.Reference.{ContainerCache}
use kubernetes_images_sync_o.Reference.Cache.{IsSound}
use kubernetes_images_sync_o.Cluster.{Workload}
use kubernetes_images_sync_o.Workers.{collect, select}
use kubernetes_images_sync_o.Workers.Named.{workloads}
use kubernetes_images_sync_o.Workers.Threads.{
  Shared, spawned, Pool, Step, turn, cancel, initial, Reach, start, later, Returns, received,
  closed, interrupted,
}
use kubernetes_images_sync_o.Workers.Threads.Order.{
  past, ahead, items_of, past-ahead, past-ended, past-spawned, items_of-spawned, Collects,
  Collects-next, Collects-failed,
}
use kubernetes_images_sync_o.Workers.Threads.Turns.{AllStand, Grows, Turn-Stands, Turn-past}

-- The goroutines behind their append or send are, in the order in which they did it, a part of a run
-- of `collect` that has left the list and the error as they are.
record Invariant (items : List Workload) (list : ContainersList) (s : Pool) : Type 0 where
  sound : IsSound s.shared.cache
  stand : AllStand s.goroutines
  same_items : items_of s.goroutines ≡ items
  runs : List (Workload × Option ℕ)
  in_order : Perm (workloads runs) (past s.goroutines)
  collects : Collects list runs s.shared.list s.shared.channel

workloads-snoc :
    (runs : List (Workload × Option ℕ)) (w : Workload) (stop : Option ℕ)
    → Perm (workloads (runs ++ (w, stop) ∷ [])) (w ∷ workloads runs)
workloads-snoc [] w stop = Perm.refl (w ∷ [])
workloads-snoc ((v, s) ∷ runs) w stop =
    Perm.trans (Perm.cons v (workloads-snoc runs w stop)) (Perm.swap w v (workloads runs))

module _ (items : List Workload) (list : ContainersList) where
  grown :
      (m m' : Shared) (ws ws' : List Workload) (runs : List (Workload × Option ℕ))
      → Perm (workloads runs) ws
      → Collects list runs m.list m.channel
      → Grows m m' ws ws'
      → (runs' : List (Workload × Option ℕ)) × Perm (workloads runs') ws'
        × Collects list runs' m'.list m'.channel
  grown m m' ws ws' runs p collects (inl (same, (same_list, same_channel))) =
      (runs, rw same p, rw (same_list, same_channel) collects)
  grown m m' ws ws' runs p collects (inr (w, q, (stop, r, ends, same_list, same_channel))) = (
    runs ++ (w, stop) ∷ [],
    Perm.trans (workloads-snoc runs w stop) (Perm.trans (Perm.cons w p) q),
    rw (same_list, same_channel) (Collects-next list runs m.list m.channel collects w stop r ends),
  )

  Step-Invariant : {s t : Pool} → Step s t → Invariant items list s → Invariant items list t
  Step-Invariant {s} (turn {m} {gs} t) inv =
      let (sound', stand', same) = Turn-Stands t inv.sound inv.stand in
      let (runs', p, collects') =
        grown s.shared m (past s.goroutines) (past gs) inv.runs inv.in_order inv.collects
          (Turn-past t inv.stand) in
      record {
        sound = sound';
        stand = stand';
        same_items = same ∙ inv.same_items;
        runs = runs';
        in_order = p;
        collects = collects';
      }
  Step-Invariant cancel inv = record {
    sound = inv.sound;
    stand = inv.stand;
    same_items = inv.same_items;
    runs = inv.runs;
    in_order = inv.in_order;
    collects = inv.collects;
  }

AllStand-spawned : (items : List Workload) → AllStand (map spawned items)
AllStand-spawned [] = tt
AllStand-spawned (w ∷ items) = (tt, AllStand-spawned items)

unstopped : List Workload → List (Workload × Option ℕ)
unstopped = map (λ w. (w, none))

workloads-unstopped : (ws : List Workload) → workloads (unstopped ws) ≡ ws
unfolding unstopped
workloads-unstopped [] = refl
workloads-unstopped (w ∷ ws) = ap (λ vs. w ∷ vs) (workloads-unstopped ws)

select-interrupted :
    (list : ContainersList) (error : Option Error) → select true list error ≡ err Errors.cancelled
unfolding select
select-interrupted list none = refl
select-interrupted list (some e) = refl

-- The goroutines one after the other return a result, from a cache.
abbrev pub InOrder :
    List Workload → ContainersList → ContainerCache → Result ContainersList → Type 0
InOrder items list cache result =
    (runs : List (Workload × Option ℕ)) × (stopped : Bool) × Perm (workloads runs) items
    × (let (out, error, cache') = collect runs list none cache in select stopped out error ≡ result)

module _ (items : List Workload) (list : ContainersList) (cache : ContainerCache)
    (context_done : Bool) (sound : IsSound cache) where
  Reach-Invariant :
      {s : Pool} → Reach (initial items list cache context_done) s → Invariant items list s
  unfolding collect
  Reach-Invariant start = record {
    sound = sound;
    stand = AllStand-spawned items;
    same_items = items_of-spawned items;
    runs = [];
    in_order = rw (past-spawned items) (Perm.refl []);
    collects = λ c h. (refl, refl);
  }
  Reach-Invariant (later r step) = Step-Invariant items list step (Reach-Invariant r)

  returned_lem :
      {s : Pool} {result : Result ContainersList}
      → Invariant items list s
      → Returns s result
      → InOrder items list cache result
  unfolding select
  returned_lem {s} inv (received {e} full) =
      let rest = unstopped (ahead s.goroutines) in
      (
        inv.runs ++ rest,
        false,
        rw (map-append, workloads-unstopped (ahead s.goroutines))
            (Perm.trans (Perm.append_right (ahead s.goroutines) inv.in_order) (
              subst (λ ws. Perm (past s.goroutines ++ ahead s.goroutines) ws) inv.same_items
                (past-ahead s.goroutines))),
        rw
            (Collects-failed list inv.runs s.shared.list s.shared.channel inv.collects rest e cache
              full sound)
            refl,
      )
  returned_lem {s} inv (closed empty over) =
      let (same_list, same_error) = inv.collects cache sound in
      (
        inv.runs,
        false,
        subst (λ ws. Perm (workloads inv.runs) ws) (past-ended s.goroutines over ∙ inv.same_items)
            inv.in_order,
        rw (same_error, empty, same_list) refl,
      )
  returned_lem inv (interrupted ended_context) = (
    unstopped items,
    true,
    rw (workloads-unstopped items) (Perm.refl items),
    select-interrupted (collect (unstopped items) list none cache).0 _,
  )

  -- For a sound cache and any interleaving: whatever `ListAndProcessResources` can return, at a point
  -- where some of its goroutines may still run, it also returns where the goroutines run one after
  -- the other in some order of all the workloads, each until it ends or finds the context done; the
  -- cache stays sound.
  pub list_and_process_resources-refines :
      {s : Pool} {result : Result ContainersList}
      → Reach (initial items list cache context_done) s
      → Returns s result
      → InOrder items list cache result × IsSound s.shared.cache
  list_and_process_resources-refines r returns =
      (returned_lem (Reach-Invariant r) returns, (Reach-Invariant r).sound)
