-- ===== src/Workers/Threads/Semaphore.antt =====
-- The semaphore of `ListAndProcessResources` bounds the goroutines that work at a time.
use kubernetes_images_sync_o.Base.{ℕ, ◌+◌, ◌≤◌, ◌≡◌, refl, Bool, List, [], ◌∷◌, map, arith}
use kubernetes_images_sync_o.Containers.{ContainersList}
use kubernetes_images_sync_o.Reference.{ContainerCache}
use kubernetes_images_sync_o.Cluster.{Workload}
use kubernetes_images_sync_o.Workers.Threads.{
  max_goroutines, Shared, Pc, waiting, released, ended, Move, acquire, cancelled, hit, miss, store,
  reject, finish, send, drop, append, release, done, Goroutine, spawned, Turn, here, there, Pool,
  Step, turn, cancel, initial, Reach, start, later,
}

-- Between the send to the semaphore and the receive from it.
abbrev pub holds : Pc → ℕ
holds waiting = 0
holds released = 0
holds ended = 0
holds _ = 1

unfoldable pub working : List Goroutine → ℕ
working [] = 0
working (g ∷ gs) = holds g.pc + working gs

abbrev IsBounded : Shared → ℕ → Type 0
IsBounded m n = (m.tokens ≡ n) × (m.tokens ≤ max_goroutines)

Move-IsBounded :
    {w : Workload} {m m' : Shared} {p p' : Pc}
    → Move w m p m' p'
    → (n : ℕ) → IsBounded m (holds p + n)
    → IsBounded m' (holds p' + n)
Move-IsBounded (acquire free) n h = ground arith
Move-IsBounded (cancelled c) n h = h
Move-IsBounded (hit c found) n h = h
Move-IsBounded (miss c found) n h = h
Move-IsBounded (store parsed) n h = h
Move-IsBounded (reject parsed) n h = h
Move-IsBounded finish n h = h
Move-IsBounded (send empty) n h = h
Move-IsBounded (drop full) n h = h
Move-IsBounded append n h = h
Move-IsBounded release n h = ground arith
Move-IsBounded done n h = h

-- `n` are the goroutines in front.
Turn-IsBounded :
    {m m' : Shared} {gs gs' : List Goroutine}
    → Turn m m' gs gs'
    → (n : ℕ) → IsBounded m (n + working gs)
    → IsBounded m' (n + working gs')
unfolding working
Turn-IsBounded (here {rest = rest} move) n h =
    ground (arith, Move-IsBounded move (n + working rest))
Turn-IsBounded (there {g} t) n h = ground (arith, Turn-IsBounded t (n + holds g.pc))

abbrev Bounded : Pool → Type 0
Bounded s = IsBounded s.shared (working s.goroutines)

Step-Bounded : {s t : Pool} → Step s t → Bounded s → Bounded t
Step-Bounded (turn t) h = ground (arith, Turn-IsBounded t 0)
Step-Bounded cancel h = h

idle_at_first : (items : List Workload) → working (map spawned items) ≡ 0
unfolding working
idle_at_first [] = refl
idle_at_first (w ∷ items) = omega (arith, idle_at_first items)

Reach-Bounded :
    (items : List Workload) (list : ContainersList) (cache : ContainerCache) (context_done : Bool)
    {s : Pool}
    → Reach (initial items list cache context_done) s
    → Bounded s
Reach-Bounded items list cache context_done start = ground (arith, idle_at_first items)
Reach-Bounded items list cache context_done (later r step) =
    Step-Bounded step (Reach-Bounded items list cache context_done r)

-- Whatever the interleaving: the goroutines that hold a place of the semaphore are as many as the
-- semaphore has values, and never more than ten.
pub at_most_ten :
    (items : List Workload) (list : ContainersList) (cache : ContainerCache) (context_done : Bool)
    {s : Pool}
    → Reach (initial items list cache context_done) s
    → (s.shared.tokens ≡ working s.goroutines) × (working s.goroutines ≤ max_goroutines)
at_most_ten items list cache context_done r =
    ground (arith, Reach-Bounded items list cache context_done r)
