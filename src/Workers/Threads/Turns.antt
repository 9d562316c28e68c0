-- ===== src/Workers/Threads/Turns.antt =====
-- What each step of a goroutine does to the list, the channel and the cache.
use mathlib.Core.List.{Perm}
use mathlib.Core.List.Perm
use kubernetes_images_sync_o.Base.{
  ℕ, ◌≡◌, refl, ap, Bool, true, false, Option, none, some, List, [], ◌∷◌, ◌⊎◌, inl, inr,
}
use kubernetes_images_sync_o.Errors.{Error, Result, ok, err}
use kubernetes_images_sync_o.Containers.{ContainersList}
use kubernetes_images_sync_o.Reference.Cache.{IsSound, IsSound-set}
use kubernetes_images_sync_o.Cluster.{Workload}
use kubernetes_images_sync_o.Workers.{extend, first_error}
use kubernetes_images_sync_o.Workers.Threads.{
  Shared, Pc, reading, missed, failed, gathered, Move, acquire, cancelled, hit, miss, store, reject,
  finish, send, drop, append, release, done, Goroutine, Turn, here, there,
}
use kubernetes_images_sync_o.Workers.Threads.Paths.{
  Ends, Leads, Leads-first, Leads-next, Ends-rejected, Ends-cancelled, Ends-gathered,
}
use kubernetes_images_sync_o.Workers.Threads.Order.{is_past, in_front, past, items_of}

-- What the live variables of a goroutine say about the run over its workload.
abbrev pub Stands : Workload → Pc → Type 0
Stands w (reading images own) = Leads w images own
Stands w (missed image images own) = Leads w (image ∷ images) own
Stands w (failed e) = (stop : Option ℕ) × Ends w stop (err e)
Stands w (gathered own) = Ends w none (ok own)
Stands w _ = Unit

-- A goroutine ends in the sense of `collect`: its result goes to the list or the channel.
abbrev pub Adds : Workload → Shared → Shared → Type 0
Adds w m m' =
    (stop : Option ℕ) × (r : Result ContainersList) × Ends w stop r
    × (m'.list ≡ extend m.list r)
    × (m'.channel ≡ first_error m.channel r)

abbrev pub Untouched : Shared → Shared → Type 0
Untouched m m' = (m'.list ≡ m.list) × (m'.channel ≡ m.channel)

Move-Stands :
    {w : Workload} {m m' : Shared} {p p' : Pc}
    → Move w m p m' p'
    → IsSound m.cache
    → Stands w p
    → IsSound m'.cache × Stands w p'
Move-Stands {w} (acquire free) sound h = (sound, Leads-first w)
Move-Stands {w} (cancelled {image} {images} {own} c) sound h =
    (sound, Ends-cancelled w image images own h)
Move-Stands {w} (hit {image} {images} {own} {container} c found) sound h =
    (sound, Leads-next w image images own h container (sound.entry image container found))
Move-Stands (miss c found) sound h = (sound, h)
Move-Stands {w} {m} (store {image} {images} {own} {container} parsed) sound h = (
  IsSound-set m.cache image container sound parsed,
  Leads-next w image images own h container parsed,
)
Move-Stands {w} (reject {image} {images} {own} {e} parsed) sound h =
    (sound, Ends-rejected w image images own h e parsed)
Move-Stands {w} (finish {own}) sound h = (sound, Ends-gathered w own h)
Move-Stands (send empty) sound h = (sound, tt)
Move-Stands (drop full) sound h = (sound, tt)
Move-Stands append sound h = (sound, tt)
Move-Stands release sound h = (sound, tt)
Move-Stands done sound h = (sound, tt)

first_error-ok : (error : Option Error) (own : ContainersList) → error ≡ first_error error (ok own)
unfolding first_error
first_error-ok none own = refl
first_error-ok (some e) own = refl

-- What a step leaves of the list and the channel.
Move-past :
    {w : Workload} {m m' : Shared} {p p' : Pc}
    → Move w m p m' p'
    → Stands w p
    → ((is_past p' ≡ is_past p) × Untouched m m')
      ⊎ ((is_past p ≡ false) × (is_past p' ≡ true) × Adds w m m')
unfolding extend first_error
Move-past (acquire free) h = inl (refl, (refl, refl))
Move-past (cancelled c) h = inl (refl, (refl, refl))
Move-past (hit c found) h = inl (refl, (refl, refl))
Move-past (miss c found) h = inl (refl, (refl, refl))
Move-past (store parsed) h = inl (refl, (refl, refl))
Move-past (reject parsed) h = inl (refl, (refl, refl))
Move-past finish h = inl (refl, (refl, refl))
Move-past (send {e} empty) (stop, ends) = inr (refl, refl, (stop, err e, ends, refl, rw empty refl))
Move-past (drop {e} full) (stop, ends) = inr (refl, refl, (stop, err e, ends, refl, rw full refl))
Move-past {m} (append {own}) h =
    inr (refl, refl, (none, ok own, h, refl, first_error-ok m.channel own))
Move-past release h = inl (refl, (refl, refl))
Move-past done h = inl (refl, (refl, refl))

abbrev pub AllStand : List Goroutine → Type 0
AllStand [] = Unit
AllStand (g ∷ gs) = Stands g.workload g.pc × AllStand gs

pub Turn-Stands :
    {m m' : Shared} {gs gs' : List Goroutine}
    → Turn m m' gs gs'
    → IsSound m.cache
    → AllStand gs
    → IsSound m'.cache × AllStand gs' × (items_of gs' ≡ items_of gs)
Turn-Stands (here move) sound (h, hs) =
    let (sound', h') = Move-Stands move sound h in (sound', (h', hs), refl)
Turn-Stands (there {g} t) sound (h, hs) =
    let (sound', hs', same) = Turn-Stands t sound hs in
    (sound', (h, hs'), ap (λ ws. g.workload ∷ ws) same)

abbrev pub Grows : Shared → Shared → List Workload → List Workload → Type 0
Grows m m' ws ws' =
    ((ws' ≡ ws) × Untouched m m') ⊎ ((w : Workload) × Perm (w ∷ ws) ws' × Adds w m m')

-- A goroutine in front changes nothing of it.
Grows-in_front :
    (m m' : Shared) (b : Bool) (v : Workload) (ws ws' : List Workload)
    → Grows m m' ws ws'
    → Grows m m' (in_front b v ws) (in_front b v ws')
Grows-in_front m m' b v ws ws' (inl (same, kept)) = inl (ap (in_front b v) same, kept)
Grows-in_front m m' true v ws ws' (inr (w, p, adds)) =
    inr (w, Perm.trans (Perm.swap v w ws) (Perm.cons v p), adds)
Grows-in_front m m' false v ws ws' (inr (w, p, adds)) = inr (w, p, adds)

pub Turn-past :
    {m m' : Shared} {gs gs' : List Goroutine}
    → Turn m m' gs gs'
    → AllStand gs
    → Grows m m' (past gs) (past gs')
unfolding past
Turn-past (here {w} {p} {p'} {rest} move) (h, hs) = elim (Move-past move h) [
  | inl (same, kept) ↦ inl (rw same refl, kept)
  | inr (before, after, adds) ↦ inr (w, rw (before, after) (Perm.refl (w ∷ past rest)), adds)
]
Turn-past {m} {m'} (there {g} {rest} {rest'} t) (h, hs) =
    Grows-in_front m m' (is_past g.pc) g.workload (past rest) (past rest') (Turn-past t hs)
