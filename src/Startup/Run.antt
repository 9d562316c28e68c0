-- ===== src/Startup/Run.antt =====
-- cmd/main.go `main`, internal/shared/k8s.go `SetupIndexers`, and `SetupWithManager` of both
-- controllers: the calls that start the operator, in their order, and what ends it.
use kubernetes_images_sync_o.Base.{ℕ, Bool, true, false, List, [], ◌∷◌}
use kubernetes_images_sync_o.Text.{Text, codes}
use kubernetes_images_sync_o.Errors
use kubernetes_images_sync_o.Errors.{Error, Result, ok, err}
use kubernetes_images_sync_o.Api.{ClusterImage}
use kubernetes_images_sync_o.Startup.Options.{
  Flags, GroupVersionKind, ManagerOptions, cluster_image_kind, cluster_image_export_kind, job_kind,
  manager_options,
}

-- `NewControllerManagedBy(mgr).For(...).Owns(...)`
pub record Controller : Type 0 where
  pub watched : GroupVersionKind
  pub owned : GroupVersionKind

pub data Action : Type 0 where
  get_config : Action
  new_manager : ManagerOptions → Action
  index_field : GroupVersionKind → Text → (ClusterImage → List Text) → Action
  new_clientset : Action
  complete : Controller → Action
  add_healthz_check : Text → Action
  add_readyz_check : Text → Action
  start : Action

-- How an action ends, for the actions done before, newest first.
abbrev pub Host : Type 0
Host = List Action → Action → Result (Unit {0})

abbrev pub Setup {ℓ} : Type ℓ → Type ℓ
Setup A = List Action → Result A × List Action

abbrev pub perform : Host → Action → Setup (Unit {0})
perform host a done = (host done a, a ∷ done)

-- `wait.Backoff`: `duration` in nanoseconds, `jitter` in percent
pub record Backoff : Type 0 where
  pub duration : ℕ
  pub factor : ℕ
  pub jitter : ℕ
  pub steps : ℕ

abbrev pub indexer_backoff : Backoff
indexer_backoff = record { duration = 1_000_000_000; factor = 2; jitter = 10; steps = 5 }

abbrev pub index_export_name : ClusterImage → List Text
index_export_name image = image.spec.export_name ∷ []

abbrev pub index_action : Action
index_action = Action.index_field cluster_image_kind (codes "spec.exportName") index_export_name

-- The condition of the backoff: an error means another attempt.
abbrev pub has_indexed : Result (Unit {0}) → Bool
has_indexed (ok _) = true
has_indexed (err _) = false

unfoldable pub index_condition : Host → Setup Bool
index_condition host done =
    let (r, done') = perform host index_action done in (ok (has_indexed r), done')

abbrev pub export_controller : Controller
export_controller = record { watched = cluster_image_export_kind; owned = cluster_image_kind }

abbrev pub image_controller : Controller
image_controller = record { watched = cluster_image_kind; owned = job_kind }

-- `SetupWithManager` of `ClusterImageExportReconciler`
unfoldable pub setup_export_controller : Host → Setup (Unit {0})
setup_export_controller host = perform host (Action.complete export_controller)

abbrev pub with_client :
    Result (Unit {0}) × List Action → Setup (Unit {0}) → Result (Unit {0}) × List Action
with_client (ok _, done) next = next done
with_client (err e, done) next = (err (Errors.kubernetes_client e), done)

-- `SetupWithManager` of `ClusterImageReconciler`
unfoldable pub setup_image_controller : Host → Setup (Unit {0})
setup_image_controller host done =
    with_client (perform host Action.new_clientset done)
      (perform host (Action.complete image_controller))

-- How the process ends: `main` returns, or exits with a status behind a message.
pub data Ending : Type 0 where
  returned : Ending
  exit : ℕ → Text → Error → Ending

-- `if err := ...; err != nil { setupLog.Error(err, message); os.Exit(1) }`
abbrev pub or_exit :
    Text
    → Result (Unit {0}) × List Action
    → (List Action → Ending × List Action)
    → Ending × List Action
or_exit message (ok _, done) next = next done
or_exit message (err e, done) next = (Ending.exit 1 message e, done)

-- The rest of `main`, and a stage in front of it.
abbrev pub Process : Type 0
Process = List Action → Ending × List Action

abbrev pub stage_or_exit : Text → Setup (Unit {0}) → Process → Process
stage_or_exit message setup next done = or_exit message (setup done) next

infixr 5 ◌>>◌
abbrev ◌>>◌ : (Process → Process) → Process → Process
stage >> rest = stage rest

-- `exponential_backoff` is `wait.ExponentialBackoff`.
module _ (host : Host) (exponential_backoff : Backoff → Setup Bool → Setup (Unit {0})) where
  unfoldable pub setup_indexers : Setup (Unit {0})
  unfolding index_condition
  setup_indexers = exponential_backoff indexer_backoff (index_condition host)

  -- `main` behind `flag.Parse`; `GetConfigOrDie` exits by itself, with a message of its own.
  unfoldable pub main : List GroupVersionKind → Flags → Process
  unfolding manager_options setup_indexers setup_export_controller setup_image_controller
  main client_go flags = do
    stage_or_exit [] (perform host Action.get_config)
    stage_or_exit (codes "unable to start manager")
        (perform host (Action.new_manager (manager_options client_go flags)))
    stage_or_exit (codes "unable to setup indexers") setup_indexers
    stage_or_exit (codes "unable to create controller") (setup_export_controller host)
    stage_or_exit (codes "unable to create controller") (setup_image_controller host)
    stage_or_exit (codes "unable to set up health check")
        (perform host (Action.add_healthz_check (codes "healthz")))
    stage_or_exit (codes "unable to set up ready check")
        (perform host (Action.add_readyz_check (codes "readyz")))
    stage_or_exit (codes "problem running manager") (perform host Action.start)
    λ done. (Ending.returned, done)
