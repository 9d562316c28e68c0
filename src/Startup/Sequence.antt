-- ===== src/Startup/Sequence.antt =====
-- `main`: the order of its calls, and how it ends.
use mathlib.Core.Logic.{◌≢◌}
use kubernetes_images_sync_o.Base.{ℕ, zero, suc, ◌<◌, ◌≡◌, refl, Bool, List, [], ◌∷◌, ◌⊎◌, inl, inr}
use kubernetes_images_sync_o.Text.{Text, codes}
use kubernetes_images_sync_o.Errors
use kubernetes_images_sync_o.Errors.{Error, Result, ok, err}
use kubernetes_images_sync_o.Startup.Options.{
  Flags, GroupVersionKind, ManagerOptions, manager_options,
}
use kubernetes_images_sync_o.Startup.Run.{
  Action, Host, Setup, Backoff, index_action, export_controller, image_controller, with_client,
  setup_export_controller, setup_image_controller, Ending, or_exit, main,
}
use kubernetes_images_sync_o.Startup.Indexers.{
  IsExponentialBackoff, Refused, Attempted, setup_indexers_lem,
}

-- The error that `main` sees where a call has failed.
abbrev pub reported : Action → Error → Error
reported Action.new_clientset e = Errors.kubernetes_client e
reported (Action.index_field kind field key) e = Errors.wait_timeout
reported _ e = e

-- The process exits with status 1 right behind a call that has failed, which is not the start.
abbrev pub IsStopped : Host → Ending × List Action → Type 0
IsStopped host result =
    (a : Action) × (before : List Action) × (e : Error) × (message : Text) × (host before a ≡ err e)
    × (a ≢ Action.start)
    × (result ≡ (Ending.exit 1 message (reported a e), a ∷ before))

-- The calls before the manager starts, behind those of `SetupIndexers`.
abbrev pub ready : List Action → List Action
ready indexed =
    Action.add_readyz_check (codes "readyz")
    ∷ Action.add_healthz_check (codes "healthz")
    ∷ Action.complete image_controller
    ∷ Action.new_clientset
    ∷ Action.complete export_controller
    ∷ indexed

-- The newest of some calls, so many of them, have succeeded.
abbrev pub NewestDone : Host → ℕ → List Action → Type 0
NewestDone host zero calls = Unit
NewestDone host (suc n) [] = Unit
NewestDone host (suc n) (a ∷ before) = (host before a ≡ ok tt) × NewestDone host n before

abbrev pub configured : ManagerOptions → List Action
configured options = Action.new_manager options ∷ Action.get_config ∷ []

-- How the process ends once the manager runs, for the calls before that.
abbrev pub RanAfter : Host → List Action → Ending × List Action → Type 0
RanAfter host calls result =
    ((host calls Action.start ≡ ok tt) × (result ≡ (Ending.returned, Action.start ∷ calls)))
    ⊎ ((e : Error) × (host calls Action.start ≡ err e)
        × (result ≡ (Ending.exit 1 (codes "problem running manager") e, Action.start ∷ calls)))

-- The manager has been started: the index stands, after fewer than five attempts that failed, and
-- every other call has succeeded.
abbrev pub IsStarted : Host → ManagerOptions → Ending × List Action → Type 0
IsStarted host options result =
    NewestDone host 2 (configured options)
    × (n : ℕ) × (n < 5)
    × (indexed : List Action) × Refused host n (configured options) indexed
    × NewestDone host 6 (ready (index_action ∷ indexed))
    × RanAfter host (ready (index_action ∷ indexed)) result

newest_attempt :
    {host : Host} {n : ℕ} {before after : List Action}
    → Refused host (suc n) before after
    → (older : List Action) × (e : Error) × (host older index_action ≡ err e)
      × (after ≡ index_action ∷ older)
newest_attempt {n = zero} {before} (Refused.more {e = e} failed Refused.none) =
    (before, e, failed, refl)
newest_attempt {n = suc n} (Refused.more failed later) = newest_attempt later

-- One stage of `main`, by the answer to its call: a property of the result holds if it holds for
-- an exit here and for the rest of the run.
module _ (host : Host) (P : Ending × List Action → Type 0) where
  stage :
      (message : Text) (a : Action) (before : List Action)
      (next : List Action → Ending × List Action) (answer : Result (Unit {0}))
      → host before a ≡ answer
      → ((e : Error) → host before a ≡ err e → P (Ending.exit 1 message e, a ∷ before))
      → (host before a ≡ ok tt → P (next (a ∷ before)))
      → P (or_exit message (answer, a ∷ before) next)
  stage message a before next (ok tt) answered stop go = go answered
  stage message a before next (err e) answered stop go = stop e answered

  client_stage :
      (message : Text) (setup : Setup (Unit {0})) (before : List Action)
      (next : List Action → Ending × List Action) (answer : Result (Unit {0}))
      → host before Action.new_clientset ≡ answer
      → ((e : Error)
          → host before Action.new_clientset ≡ err e
          → P (Ending.exit 1 message (Errors.kubernetes_client e), Action.new_clientset ∷ before))
      → (host before Action.new_clientset ≡ ok tt
          → P (or_exit message (setup (Action.new_clientset ∷ before)) next))
      → P (or_exit message (with_client (answer, Action.new_clientset ∷ before) setup) next)
  client_stage message setup before next (ok tt) answered stop go = go answered
  client_stage message setup before next (err e) answered stop go = stop e answered

  index_stage :
      (message : Text) (before : List Action) (next : List Action → Ending × List Action)
      (attempted : Result (Unit {0}) × List Action)
      → Attempted host 5 before attempted
      → ((older : List Action) (e : Error)
          → host older index_action ≡ err e
          → P (Ending.exit 1 message Errors.wait_timeout, index_action ∷ older))
      → ((n : ℕ) (indexed : List Action)
          → n < 5
          → Refused host n before indexed
          → host indexed index_action ≡ ok tt
          → P (next (index_action ∷ indexed)))
      → P (or_exit message attempted next)
  index_stage message before next attempted (inl (n, indexed, few, refused, success, e)) stop go =
      rw e (go n indexed few refused success)
  index_stage message before next attempted (inr (after, refused, e)) stop go =
      let (older, x, failed, same) = newest_attempt refused in rw (e, same) (stop older x failed)

-- `main` keeps to its order: it has started the manager, or stopped before.
abbrev pub IsOrdered : Host → ManagerOptions → Ending × List Action → Type 0
IsOrdered host options result = IsStarted host options result ⊎ IsStopped host result

module _ (host : Host) (options : ManagerOptions) where
  stop :
      (message : Text) (a : Action) (before : List Action)
      → ((e : Error) → reported a e ≡ e)
      → a ≢ Action.start
      → (e : Error) → host before a ≡ err e
      → IsOrdered host options (Ending.exit 1 message e, a ∷ before)
  stop message a before same other e failed =
      inr (a, before, e, message, failed, other, rw (same e) refl)

-- Where the backoff behaves as documented: either the manager has been started, with the options that
-- the flags say, the index standing after fewer than five failed attempts and every other call
-- having succeeded once, in the order of the code; then the process ends as the manager does, with
-- status 1 for an error. Or a call has failed before: the process exits with status 1 and that error
-- right behind it, and the manager is never started.
pub main_lem :
    (host : Host) (exponential_backoff : Backoff → Setup Bool → Setup (Unit {0}))
    (client_go : List GroupVersionKind) (flags : Flags)
    → IsExponentialBackoff exponential_backoff
    → IsStarted host
        (manager_options client_go flags)
        (main host exponential_backoff client_go flags [])
      ⊎ IsStopped host (main host exponential_backoff client_go flags [])
unfolding main setup_export_controller setup_image_controller
main_lem host exponential_backoff client_go flags documented =
    stage host P [] Action.get_config [] _ _ refl (stop host o _ _ _ (λ e. refl) (λ q. cc)) λ a.
      stage host P _ (Action.new_manager o) _ _ _ refl (stop host o _ _ _ (λ e. refl) (λ q. cc))
        λ b.
          index_stage host P _ (configured o) _ _
            (setup_indexers_lem host exponential_backoff documented (configured o))
            (λ older e failed. inr (index_action, older, e, _, failed, (λ q. cc), refl))
            λ n indexed few refused c.
              stage host P _ _ _ _ _ refl (stop host o _ _ _ (λ e. refl) (λ q. cc)) λ d.
                client_stage host P _ _ _ _ _ refl
                  (λ e failed. inr (Action.new_clientset, _, e, _, failed, (λ q. cc), refl))
                  λ f. stage host P _ _ _ _ _ refl (stop host o _ _ _ (λ e. refl) (λ q. cc)) λ g.
                    stage host P _ _ _ _ _ refl (stop host o _ _ _ (λ e. refl) (λ q. cc)) λ h.
                      stage host P _ _ _ _ _ refl (stop host o _ _ _ (λ e. refl) (λ q. cc)) λ i.
                        stage host P _ Action.start _ _ _ refl
                          (λ e failed. inl (
                            (b, (a, tt)),
                            n,
                            few,
                            indexed,
                            refused,
                            (i, (h, (g, (f, (d, (c, tt)))))),
                            inr (e, failed, refl),
                          ))
                          λ j. inl (
                            (b, (a, tt)),
                            n,
                            few,
                            indexed,
                            refused,
                            (i, (h, (g, (f, (d, (c, tt)))))),
                            inl (j, refl),
                          )
  where
    o : ManagerOptions
    o = manager_options client_go flags

    P : Ending × List Action → Type 0
    P = IsOrdered host o
