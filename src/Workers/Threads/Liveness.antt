-- ===== src/Workers/Threads/Liveness.antt =====
-- The goroutines of `ListAndProcessResources` all end: they cannot block each other, and each has so
-- many steps to make.
use kubernetes_images_sync_o.Base.{
  ℕ, suc, ◌+◌, ◌*◌, ◌≤◌, ◌<◌, ◌≡◌, refl, Bool, List, [], ◌∷◌, ◌⊎◌, inl, inr, arith, length,
  Bool-cases, Option-cases, ltb,
}
use kubernetes_images_sync_o.Text.{Text}
use kubernetes_images_sync_o.Errors.{Error, Result-cases}
use kubernetes_images_sync_o.Containers.{ContainersList}
use kubernetes_images_sync_o.Reference.{ContainerCache, parse_reference, get}
use kubernetes_images_sync_o.Cluster.{Workload}
use kubernetes_images_sync_o.Workers.{images_of}
use kubernetes_images_sync_o.Workers.Threads.{
  max_goroutines, Shared, Pc, waiting, reading, missed, failed, gathered, leaving, released, ended,
  Move, acquire, cancelled, hit, miss, store, reject, finish, send, drop, append, release, done,
  Goroutine, Turn, here, there, Pool, initial, Reach, later, turn, AllEnded,
}
use kubernetes_images_sync_o.Workers.Threads.Semaphore.{holds, working, at_most_ten}

-- The most steps that a goroutine still makes.
abbrev pub steps_left : Workload → Pc → ℕ
steps_left w waiting = 5 + 2 * length (images_of w)
steps_left w (reading images own) = 4 + 2 * length images
steps_left w (missed image images own) = 5 + 2 * length images
steps_left w (failed e) = 3
steps_left w (gathered own) = 3
steps_left w leaving = 2
steps_left w released = 1
steps_left w ended = 0

unfoldable pub work : List Goroutine → ℕ
work [] = 0
work (g ∷ gs) = steps_left g.workload g.pc + work gs

Move-lt :
    {w : Workload} {m m' : Shared} {p p' : Pc} → Move w m p m' p' → steps_left w p' < steps_left w p
Move-lt (acquire free) = ground arith
Move-lt (cancelled c) = ground arith
Move-lt (hit c found) = ground arith
Move-lt (miss c found) = ground arith
Move-lt (store parsed) = ground arith
Move-lt (reject parsed) = ground arith
Move-lt finish = ground arith
Move-lt (send empty) = ground arith
Move-lt (drop full) = ground arith
Move-lt append = ground arith
Move-lt release = ground arith
Move-lt done = ground arith

Turn-lt : {m m' : Shared} {gs gs' : List Goroutine} → Turn m m' gs gs' → work gs' < work gs
unfolding work
Turn-lt (here {rest} move) = ground (arith, Move-lt move)
Turn-lt (there t) = ground (arith, Turn-lt t)

abbrev CanMove : Workload → Shared → Pc → Type 0
CanMove w m p = (m' : Shared) × (p' : Pc) × Move w m p m' p'

module _ (w : Workload) (m : Shared) where
  read_step :
      (image : Text) (images : List Text) (own : ContainersList)
      → CanMove w m (reading (image ∷ images) own)
  read_step image images own = elim (Bool-cases m.context_done) [
    | inl over ↦ (_, _, cancelled over)
    | inr going ↦ elim (Option-cases (get m.cache image)) [
      | inl absent ↦ (_, _, miss going absent)
      | inr (container, found) ↦ (_, _, hit going found)
    ]
  ]

  missed_step :
      (image : Text) (images : List Text) (own : ContainersList)
      → CanMove w m (missed image images own)
  missed_step image images own = elim (Result-cases (parse_reference image)) [
    | inl (container, parsed) ↦ (_, _, store parsed)
    | inr (e, parsed) ↦ (_, _, reject parsed)
  ]

  failed_step : (e : Error) → CanMove w m (failed e)
  failed_step e = elim (Option-cases m.channel) [
    | inl empty ↦ (_, _, send empty)
    | inr (e', full) ↦ (_, _, drop full)
  ]

  -- A goroutine that holds a place of the semaphore never waits.
  holder_step : (p : Pc) → holds p ≡ 1 → CanMove w m p
  holder_step waiting h = absurd (omega arith)
  holder_step (reading [] own) h = (_, _, finish)
  holder_step (reading (image ∷ images) own) h = read_step image images own
  holder_step (missed image images own) h = missed_step image images own
  holder_step (failed e) h = failed_step e
  holder_step (gathered own) h = (_, _, append)
  holder_step leaving h = (_, _, release)
  holder_step released h = absurd (omega arith)
  holder_step ended h = absurd (omega arith)

  -- With a free place only one that has ended does not move.
  free_step : (p : Pc) → m.tokens < max_goroutines → (p ≡ ended) ⊎ CanMove w m p
  free_step waiting free = inr (_, _, acquire free)
  free_step released free = inr (_, _, done)
  free_step ended free = inl refl
  free_step (reading images own) free = inr (holder_step (reading images own) refl)
  free_step (missed image images own) free = inr (holder_step (missed image images own) refl)
  free_step (failed e) free = inr (holder_step (failed e) refl)
  free_step (gathered own) free = inr (holder_step (gathered own) refl)
  free_step leaving free = inr (holder_step leaving refl)

abbrev pub CanTurn : Shared → List Goroutine → Type 0
CanTurn m gs = (m' : Shared) × (gs' : List Goroutine) × Turn m m' gs gs'

holds-cases : (p : Pc) → (holds p ≡ 0) ⊎ (holds p ≡ 1)
holds-cases p = ground arith

module _ (m : Shared) where
  holder_turn : (gs : List Goroutine) → 0 < working gs → CanTurn m gs
  unfolding working
  holder_turn [] h = absurd (omega arith)
  holder_turn (g ∷ gs) h = elim (holds-cases g.pc) [
    | inl idle ↦ let (m', gs', t) = holder_turn gs (omega arith) in (m', g ∷ gs', there t)
    | inr busy ↦ let (m', p', move) = holder_step g.workload m g.pc busy in (m', _, here move)
  ]

  free_turn : (gs : List Goroutine) → m.tokens < max_goroutines → AllEnded gs ⊎ CanTurn m gs
  free_turn [] free = inl tt
  free_turn (g ∷ gs) free = elim (free_step g.workload m g.pc free) [
    | inr (m', p', move) ↦ inr (m', _, here move)
    | inl over ↦ elim (free_turn gs free) [
      | inl all ↦ inl (over, all)
      | inr (m', gs', t) ↦ inr (m', g ∷ gs', there t)
    ]
  ]

-- So many turns of goroutines.
pub data Turns (s : Pool) : ℕ → Pool → Type 0 where
  no_turn : Turns s 0 s
  one_turn :
      {n : ℕ} {t : Pool} {m : Shared} {gs : List Goroutine}
      → Turns s n t
      → Turn t.shared m t.goroutines gs
      → Turns s (suc n) (record { shared = m; goroutines = gs })

Turns-le : {s t : Pool} {n : ℕ} → Turns s n t → n + work t.goroutines ≤ work s.goroutines
Turns-le Turns.no_turn = omega arith
Turns-le (Turns.one_turn ts t) = omega (arith, Turns-le ts, Turn-lt t)

Turns-Reach : {s t u : Pool} {n : ℕ} → Reach s t → Turns t n u → Reach s u
Turns-Reach r Turns.no_turn = r
Turns-Reach r (Turns.one_turn ts t) = later (Turns-Reach r ts) (turn t)

-- From every state that an interleaving reaches: the goroutines make at most `work` further steps,
-- and after any number of them either all have ended, or one of them can go on; so they neither
-- block each other nor run forever, and `wg.Wait` returns.
pub goroutines_end :
    (items : List Workload) (list : ContainersList) (cache : ContainerCache) (context_done : Bool)
    {s t : Pool} {n : ℕ}
    → Reach (initial items list cache context_done) s
    → Turns s n t
    → (n + work t.goroutines ≤ work s.goroutines)
      × (AllEnded t.goroutines ⊎ CanTurn t.shared t.goroutines)
goroutines_end items list cache context_done {t} r ts = (
  Turns-le ts,
  (let (same, few) = at_most_ten items list cache context_done (Turns-Reach r ts) in
      elim (Bool-cases (ltb t.shared.tokens max_goroutines)) [
        | inl free ↦ free_turn t.shared t.goroutines (ground arith)
        | inr full ↦ inr (holder_turn t.shared t.goroutines (ground arith))
      ]),
)
