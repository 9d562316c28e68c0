-- ===== src/Samples/Starts.antt =====
-- Starts of the operator: the first attempt to index fails, everything else succeeds.
use kubernetes_images_sync_o.Base.{
  ℕ, zero, suc, ◌≡◌, refl, Bool, true, false, none, List, [], ◌∷◌, ◌↔◌,
}
use kubernetes_images_sync_o.Text.{codes}
use kubernetes_images_sync_o.Errors
use kubernetes_images_sync_o.Errors.{Result, ok, err}
use kubernetes_images_sync_o.Startup.Options.{default_flags, manager_options, job_kind, TlsConfig}
use kubernetes_images_sync_o.Startup.Run.{Action, Host, Setup, Backoff, main, setup_indexers}
use kubernetes_images_sync_o.Startup.Indexers.{IsExponentialBackoff, Attempted, setup_indexers_lem}
use kubernetes_images_sync_o.Startup.Sequence.{IsOrdered, main_lem}
use kubernetes_images_sync_o.Startup.Served.{configure, manager_options_lem}

abbrev after_check : Result Bool × List Action → Setup (Unit {0}) → Result (Unit {0}) × List Action
after_check (ok true, done) next = (ok tt, done)
after_check (ok false, done) next = next done
after_check (err e, done) next = (err e, done)

-- Checks without a pause.
retry : ℕ → Setup Bool → Setup (Unit {0})
retry zero condition done = (err Errors.wait_timeout, done)
retry (suc n) condition done = after_check (condition done) (retry n condition)

abbrev backoff : Backoff → Setup Bool → Setup (Unit {0})
backoff b = retry b.steps

backoff-IsExponentialBackoff : IsExponentialBackoff backoff
unfolding retry
backoff-IsExponentialBackoff = record {
  used_up = λ b condition done s. rw s refl;
  holds = λ b condition done done' n s h. rw (s, h) refl;
  fails = λ b condition done done' n e s h. rw (s, h) refl;
  again = λ b condition done done' n s h. (record b { steps = n }, refl, rw (s, h) refl);
}

abbrev host : Host
host (x ∷ y ∷ []) a = err (Errors.api 1)
host done a = ok tt

setup_indexers_example :
    Attempted host 5
      (Action.start ∷ Action.get_config ∷ [])
      (setup_indexers host backoff (Action.start ∷ Action.get_config ∷ []))
setup_indexers_example =
    setup_indexers_lem host backoff backoff-IsExponentialBackoff
      (Action.start ∷ Action.get_config ∷ [])

main_example :
    IsOrdered host
      (manager_options (job_kind ∷ []) default_flags)
      (main host backoff (job_kind ∷ []) default_flags [])
main_example = main_lem host backoff (job_kind ∷ []) default_flags backoff-IsExponentialBackoff

abbrev http2_config : TlsConfig
http2_config = record { next_protos = codes "h2" ∷ [] }

manager_options_example :
    ((configure (manager_options [] default_flags).webhook_tls_opts http2_config).next_protos
      ≡ codes "http/1.1" ∷ [])
    × ((configure (manager_options [] default_flags).metrics.tls_opts http2_config).next_protos
        ≡ codes "http/1.1" ∷ [])
    × (((manager_options [] default_flags).metrics.filter_provider ≡ none)
        ↔ ((manager_options [] default_flags).metrics.secure_serving ≡ false))
manager_options_example = manager_options_lem [] default_flags http2_config
