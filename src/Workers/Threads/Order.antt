-- ===== src/Workers/Threads/Order.antt =====
-- The goroutines that have added to the shared list or to the channel, in the order in which they did.
use mathlib.Core.List.{Perm, perm_middle}
use mathlib.Core.List.Perm
use kubernetes_images_sync_o.Base.{
  ℕ, ◌≡◌, refl, ap, ◌∙◌, Option, none, some, List, [], ◌∷◌, ◌++◌, map, Bool, true, false, not,
}
use kubernetes_images_sync_o.Errors.{Error, Result}
use kubernetes_images_sync_o.Containers.{ContainersList}
use kubernetes_images_sync_o.Reference.{ContainerCache}
use kubernetes_images_sync_o.Reference.Cache.{IsSound}
use kubernetes_images_sync_o.Cluster.{Workload}
use kubernetes_images_sync_o.Workers.{collect, extend, first_error}
use kubernetes_images_sync_o.Workers.Named.{collect-IsSound}
use kubernetes_images_sync_o.Workers.Threads.{
  Pc, leaving, released, ended, Goroutine, AllEnded, spawned,
}
use kubernetes_images_sync_o.Workers.Threads.Paths.{Ends, run_of}

-- Behind its append or its send.
abbrev pub is_past : Pc → Bool
is_past leaving = true
is_past released = true
is_past ended = true
is_past _ = false

abbrev pub in_front : Bool → Workload → List Workload → List Workload
in_front true w ws = w ∷ ws
in_front false w ws = ws

unfoldable pub past : List Goroutine → List Workload
past [] = []
past (g ∷ gs) = in_front (is_past g.pc) g.workload (past gs)

unfoldable pub ahead : List Goroutine → List Workload
ahead [] = []
ahead (g ∷ gs) = in_front (not (is_past g.pc)) g.workload (ahead gs)

abbrev pub items_of : List Goroutine → List Workload
items_of = map (λ (g : Goroutine). g.workload)

put_in_front :
    (b : Bool) (w : Workload) (us vs ws : List Workload)
    → Perm (us ++ vs) ws
    → Perm (in_front b w us ++ in_front (not b) w vs) (w ∷ ws)
put_in_front true w us vs ws p = Perm.cons w p
put_in_front false w us vs ws p = Perm.trans (perm_middle us vs) (Perm.cons w p)

pub past-ahead : (gs : List Goroutine) → Perm (past gs ++ ahead gs) (items_of gs)
unfolding past ahead
past-ahead [] = Perm.refl []
past-ahead (g ∷ gs) =
    put_in_front (is_past g.pc) g.workload (past gs) (ahead gs) (items_of gs) (past-ahead gs)

pub past-ended : (gs : List Goroutine) → AllEnded gs → past gs ≡ items_of gs
unfolding past
past-ended [] h = refl
past-ended (g ∷ gs) (e, es) = rw (e, past-ended gs es) refl

pub past-spawned : (ws : List Workload) → past (map spawned ws) ≡ []
unfolding past
past-spawned [] = refl
past-spawned (w ∷ ws) = past-spawned ws

pub items_of-spawned : (ws : List Workload) → items_of (map spawned ws) ≡ ws
items_of-spawned [] = refl
items_of-spawned (w ∷ ws) = ap (λ vs. w ∷ vs) (items_of-spawned ws)

-- A list and an error are those of the goroutines in this order, whatever sound cache they start with.
abbrev pub Collects :
    ContainersList → List (Workload × Option ℕ) → ContainersList → Option Error → Type 0
Collects list runs list' error =
    (cache : ContainerCache)
    → IsSound cache
    → ((collect runs list none cache).0 ≡ list') × ((collect runs list none cache).1 ≡ error)

-- One more goroutine at the end.
collect_one_more :
    (runs : List (Workload × Option ℕ)) (w : Workload) (stop : Option ℕ) (list : ContainersList)
    (error : Option Error) (cache : ContainerCache)
    → let (before, e, cache') = collect runs list error cache in
      let r = (run_of stop w cache').0 in
      ((collect (runs ++ (w, stop) ∷ []) list error cache).0 ≡ extend before r)
      × ((collect (runs ++ (w, stop) ∷ []) list error cache).1 ≡ first_error e r)
unfolding collect
collect_one_more [] w stop list error cache = (refl, refl)
collect_one_more ((v, s) ∷ runs) w stop list error cache =
    collect_one_more runs w stop (extend list (run_of s v cache).0)
      (first_error error (run_of s v cache).0) (run_of s v cache).1

-- The goroutines behind an error change nothing of it.
collect_later :
    (runs later : List (Workload × Option ℕ)) (list : ContainersList) (error : Option Error)
    (cache : ContainerCache) (e : Error)
    → (collect runs list error cache).1 ≡ some e
    → (collect (runs ++ later) list error cache).1 ≡ some e
unfolding collect first_error
collect_later [] [] list error cache e h = h
collect_later [] ((w, stop) ∷ later) list error cache e h =
    collect_later [] later (extend list (run_of stop w cache).0)
      (first_error error (run_of stop w cache).0) (run_of stop w cache).1 e (rw h refl)
collect_later ((w, stop) ∷ runs) later list error cache e h =
    collect_later runs later (extend list (run_of stop w cache).0)
      (first_error error (run_of stop w cache).0) (run_of stop w cache).1 e h

module _ (list : ContainersList) (runs : List (Workload × Option ℕ)) (list' : ContainersList)
    (error : Option Error) (collects : Collects list runs list' error) where
  -- A goroutine that ends behind the others.
  pub Collects-next :
      (w : Workload) (stop : Option ℕ) (r : Result ContainersList)
      → Ends w stop r
      → Collects list (runs ++ (w, stop) ∷ []) (extend list' r) (first_error error r)
  Collects-next w stop r ends cache sound =
      let (same_list, same_error) = collects cache sound in
      let own =
        ends (collect runs list none cache).2 (collect-IsSound runs list none cache sound) in
      let (e, f) = collect_one_more runs w stop list none cache in
      (e ∙ cc (same_list, own), f ∙ cc (same_error, own))

  pub Collects-failed :
      (later : List (Workload × Option ℕ)) (e : Error) (cache : ContainerCache)
      → error ≡ some e
      → IsSound cache
      → (collect (runs ++ later) list none cache).1 ≡ some e
  Collects-failed later e cache h sound =
      collect_later runs later list none cache e ((collects cache sound).1 ∙ h)
