-- ===== src/Startup/Indexers.antt =====
-- `SetupIndexers`: the attempts to index the images by the name of their export.
use kubernetes_images_sync_o.Base.{
  ℕ, zero, suc, ◌<◌, ◌≡◌, refl, ◌∙◌, Bool, true, false, List, ◌∷◌, ◌⊎◌, inl, inr, arith,
}
use kubernetes_images_sync_o.Errors
use kubernetes_images_sync_o.Errors.{Error, Result, ok, err}
use kubernetes_images_sync_o.Startup.Run.{
  Action, Host, Setup, Backoff, indexer_backoff, index_action, index_condition, setup_indexers,
}

-- The documentation of `wait.ExponentialBackoff`: at most `Steps` checks of the condition, until one
-- says true or fails; the pause between them is not seen here.
pub record IsExponentialBackoff (backoff : Backoff → Setup Bool → Setup (Unit {0})) : Type 0 where
  pub used_up :
      (b : Backoff) (condition : Setup Bool) (done : List Action)
      → b.steps ≡ 0
      → backoff b condition done ≡ (err Errors.wait_timeout, done)
  pub holds :
      (b : Backoff) (condition : Setup Bool) (done done' : List Action) (n : ℕ)
      → b.steps ≡ suc n
      → condition done ≡ (ok true, done')
      → backoff b condition done ≡ (ok tt, done')
  pub fails :
      (b : Backoff) (condition : Setup Bool) (done done' : List Action) (n : ℕ) (e : Error)
      → b.steps ≡ suc n
      → condition done ≡ (err e, done')
      → backoff b condition done ≡ (err e, done')
  pub again :
      (b : Backoff) (condition : Setup Bool) (done done' : List Action) (n : ℕ)
      → b.steps ≡ suc n
      → condition done ≡ (ok false, done')
      → (b' : Backoff) × (b'.steps ≡ n) × (backoff b condition done ≡ backoff b' condition done')

-- So many attempts to index that failed, one behind the other.
pub data Refused (host : Host) : ℕ → List Action → List Action → Type 0 where
  none : {done : List Action} → Refused host 0 done done
  more :
      {k : ℕ} {done done' : List Action} {e : Error}
      → host done index_action ≡ err e
      → Refused host k (index_action ∷ done) done'
      → Refused host (suc k) done done'

-- The attempts end with one that succeeds, or are used up.
abbrev pub Attempted : Host → ℕ → List Action → Result (Unit {0}) × List Action → Type 0
Attempted host n done result =
    ((k : ℕ) × (done' : List Action) × (k < n)
      × Refused host k done done'
      × (host done' index_action ≡ ok tt)
      × (result ≡ (ok tt, index_action ∷ done')))
    ⊎ ((done' : List Action) × Refused host n done done'
        × (result ≡ (err Errors.wait_timeout, done')))

module _ (host : Host) (exponential_backoff : Backoff → Setup Bool → Setup (Unit {0}))
    (documented : IsExponentialBackoff exponential_backoff) where
  after_refusal :
      (n : ℕ) (done : List Action) (e : Error) (r r' : Result (Unit {0}) × List Action)
      → host done index_action ≡ err e
      → r ≡ r'
      → Attempted host n (index_action ∷ done) r'
      → Attempted host (suc n) done r
  after_refusal n done e r r' refused same (inl (k, done', small, before, success, result)) =
      inl (suc k, done', omega arith, Refused.more refused before, success, same ∙ result)
  after_refusal n done e r r' refused same (inr (done', before, result)) =
      inr (done', Refused.more refused before, same ∙ result)

  -- One attempt, by its answer; `later` are the attempts behind it.
  attempt :
      (n : ℕ) (b : Backoff) (done : List Action) (answer : Result (Unit {0}))
      → host done index_action ≡ answer
      → b.steps ≡ suc n
      → ((b' : Backoff)
          → b'.steps ≡ n
          → Attempted host n
              (index_action ∷ done)
              (exponential_backoff b' (index_condition host) (index_action ∷ done)))
      → Attempted host (suc n) done (exponential_backoff b (index_condition host) done)
  unfolding index_condition
  attempt n b done (ok tt) answered s later = inl (
    0,
    done,
    omega arith,
    Refused.none,
    answered,
    documented.holds b _ done (index_action ∷ done) n s (rw answered refl),
  )
  attempt n b done (err e) answered s later =
      let (b', s', same) =
        documented.again b (index_condition host) done (index_action ∷ done) n s
          (rw answered refl) in
      after_refusal n done e _ _ answered same (later b' s')

  attempts :
      (n : ℕ) (b : Backoff) (done : List Action)
      → b.steps ≡ n
      → Attempted host n done (exponential_backoff b (index_condition host) done)
  attempts zero b done s = inr (done, Refused.none, documented.used_up b _ done s)
  attempts (suc n) b done s =
      attempt n b done (host done index_action) refl s
        (λ b' s'. attempts n b' (index_action ∷ done) s')

  -- Where the backoff behaves as documented: `SetupIndexers` tries to index at most five times. It
  -- succeeds just behind an attempt that succeeds, all earlier ones having failed; if it fails, all
  -- five have failed, and the error is the backoff's own.
  pub setup_indexers_lem :
      (done : List Action) → Attempted host 5 done (setup_indexers host exponential_backoff done)
  unfolding setup_indexers
  setup_indexers_lem done = attempts 5 indexer_backoff done refl
