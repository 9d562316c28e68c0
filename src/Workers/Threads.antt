-- ===== src/Workers/Threads.antt =====
-- internal/shared/k8s.go `ListAndProcessResources` with its goroutines as they are: one per listed
-- workload, each a program counter with its live variables, interleaved at the accesses to what they
-- share. A channel, a mutex and the two methods of the cache are atomic. A goroutine that has not
-- been started yet is one that has not moved.
pub mod Semaphore
pub mod Paths
pub mod Order
pub mod Turns
pub mod Refinement
pub mod Liveness
use kubernetes_images_sync_o.Base.{
  ℕ, ◌+◌, ◌-◌, ◌<◌, ◌≡◌, Bool, true, false, Option, none, some, List, [], ◌∷◌, ◌++◌, map,
}
use kubernetes_images_sync_o.Text.{Text}
use kubernetes_images_sync_o.Errors
use kubernetes_images_sync_o.Errors.{Error, Result, ok, err}
use kubernetes_images_sync_o.Containers.{Container, ContainersList}
use kubernetes_images_sync_o.Reference.{ContainerCache, get, set, parse_reference}
use kubernetes_images_sync_o.Cluster.{Workload}
use kubernetes_images_sync_o.Workers.{in_namespace, images_of}

-- The capacity of `semaphore`
abbrev pub max_goroutines : ℕ
max_goroutines = 10

-- What the goroutines share: `containersList`, the value in `errChan`, `containerCache`, the number of
-- values in `semaphore`, and whether the context is done.
pub record Shared : Type 0 where
  pub list : ContainersList
  pub channel : Option Error
  pub cache : ContainerCache
  pub tokens : ℕ
  pub context_done : Bool

-- Where a goroutine stands in `processItem`.
pub data Pc : Type 0 where
  waiting : Pc  -- before the send to the semaphore
  reading : (images : List Text) (own : ContainersList) → Pc  -- before an image, or behind the last
  missed : (image : Text) (images : List Text) (own : ContainersList) → Pc  -- the cache has no entry
  failed : Error → Pc  -- before the send to `errChan`
  gathered : (own : ContainersList) → Pc  -- before the append to the shared list
  leaving : Pc  -- before the receive from the semaphore
  released : Pc  -- before `wg.Done`
  ended : Pc

-- One step of the goroutine of a workload.
pub data Move (w : Workload) (m : Shared) : Pc → Shared → Pc → Type 0 where
  acquire :
      m.tokens < max_goroutines
      → Move w m waiting (record m { tokens = m.tokens + 1 }) (reading (images_of w) [])
  cancelled :
      {image : Text} {images : List Text} {own : ContainersList}
      → m.context_done ≡ true
      → Move w m (reading (image ∷ images) own) m (failed Errors.cancelled)
  hit :
      {image : Text} {images : List Text} {own : ContainersList} {container : Container}
      → m.context_done ≡ false
      → get m.cache image ≡ some container
      → Move w m
          (reading (image ∷ images) own)
          m
          (reading images (own ++ in_namespace w.namespace container ∷ []))
  miss :
      {image : Text} {images : List Text} {own : ContainersList}
      → m.context_done ≡ false
      → get m.cache image ≡ none
      → Move w m (reading (image ∷ images) own) m (missed image images own)
  store :
      {image : Text} {images : List Text} {own : ContainersList} {container : Container}
      → parse_reference image ≡ ok container
      → Move w m
          (missed image images own)
          (record m { cache = set m.cache image container })
          (reading images (own ++ in_namespace w.namespace container ∷ []))
  reject :
      {image : Text} {images : List Text} {own : ContainersList} {e : Error}
      → parse_reference image ≡ err e
      → Move w m (missed image images own) m (failed (Errors.process_name image e))
  finish : {own : ContainersList} → Move w m (reading [] own) m (gathered own)
  send :
      {e : Error} → m.channel ≡ none → Move w m (failed e) (record m { channel = some e }) leaving
  drop : {e e' : Error} → m.channel ≡ some e' → Move w m (failed e) m leaving
  append :
      {own : ContainersList} → Move w m (gathered own) (record m { list = m.list ++ own }) leaving
  release : Move w m leaving (record m { tokens = m.tokens - 1 }) released
  done : Move w m released m ended

pub record Goroutine : Type 0 where
  pub workload : Workload
  pub pc : Pc

abbrev pub spawned : Workload → Goroutine
spawned w = record { workload = w; pc = waiting }

-- One of the goroutines moves.
pub data Turn (m m' : Shared) : List Goroutine → List Goroutine → Type 0 where
  here :
      {w : Workload} {p p' : Pc} {rest : List Goroutine}
      → Move w m p m' p'
      → Turn m m' (record { workload = w; pc = p } ∷ rest) (record { workload = w; pc = p' } ∷ rest)
  there :
      {g : Goroutine} {rest rest' : List Goroutine}
      → Turn m m' rest rest'
      → Turn m m' (g ∷ rest) (g ∷ rest')

pub record Pool : Type 0 where
  pub shared : Shared
  pub goroutines : List Goroutine

-- A goroutine moves, or the context ends.
pub data Step (s : Pool) : Pool → Type 0 where
  turn :
      {m : Shared} {gs : List Goroutine}
      → Turn s.shared m s.goroutines gs
      → Step s (record { shared = m; goroutines = gs })
  cancel : Step s (record s { shared = record s.shared { context_done = true } })

-- The call of `ListAndProcessResources` behind its list call.
abbrev pub initial : List Workload → ContainersList → ContainerCache → Bool → Pool
initial items list cache context_done = record {
  shared = record {
    list = list;
    channel = none;
    cache = cache;
    tokens = 0;
    context_done = context_done;
  };
  goroutines = map spawned items;
}

pub data Reach (s : Pool) : Pool → Type 0 where
  start : Reach s s
  later : {t u : Pool} → Reach s t → Step t u → Reach s u

-- `wg.Wait` is over.
abbrev pub AllEnded : List Goroutine → Type 0
AllEnded [] = Unit
AllEnded (g ∷ gs) = (g.pc ≡ ended) × AllEnded gs

-- What the last `select` may return: an error that waits in the channel, `nil` from the channel that
-- is closed behind the last goroutine, once it is empty, or the error of the context.
pub data Returns (s : Pool) : Result ContainersList → Type 0 where
  received : {e : Error} → s.shared.channel ≡ some e → Returns s (err e)
  closed : s.shared.channel ≡ none → AllEnded s.goroutines → Returns s (ok s.shared.list)
  interrupted : s.shared.context_done ≡ true → Returns s (err Errors.cancelled)
