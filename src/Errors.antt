-- ===== src/Errors.antt =====
-- The errors of the operator, and results that may be one. `not_found` is an API error for which
-- `errors.IsNotFound` holds, `api` any other error of the API server, `cancelled` is `ctx.Err()`,
-- `wait_timeout` the error of a backoff that has used up its attempts.
use kubernetes_images_sync_o.Base.{ℕ, ◌≡◌, refl, ◌⊎◌, inl, inr}
use kubernetes_images_sync_o.Text.{Text}

pub data Error : Type 0 where
  not_found : Error
  api : ℕ → Error
  cancelled : Error
  invalid_name : Text → Error
  invalid_sha : Text → Error
  image_required : Error
  process_name : Text → Error → Error
  list_resources : Error → Error
  delete_job : Error → Error
  delete_pods : Error → Error
  cleanup_failed : Text → Error
  kubernetes_client : Error → Error
  wait_timeout : Error

pub data Result {ℓ} (A : Type ℓ) : Type ℓ where
  ok : A → Result A
  err : Error → Result A

infixl 5 ◌>>=◌
abbrev pub ◌>>=◌ {ℓ κ} : {X : Type ℓ} {Y : Type κ} → Result X → (X → Result Y) → Result Y
ok x >>= next = next x
err failure >>= next = err failure

-- The intermediate value of two steps that succeed.
pub >>=-eq-ok {ℓ κ} :
    {X : Type ℓ} {Y : Type κ} (step : Result X) (next : X → Result Y) {y : Y}
    → (step >>= next) ≡ ok y
    → (x : X) × (step ≡ ok x) × (next x ≡ ok y)
>>=-eq-ok (ok x) next whole = (x, refl, whole)
>>=-eq-ok (err failure) next whole = cc

pub Result-cases {ℓ} :
    {A : Type ℓ} (r : Result A) → ((a : A) × (r ≡ ok a)) ⊎ ((e : Error) × (r ≡ err e))
Result-cases (ok a) = inl (a, refl)
Result-cases (err e) = inr (e, refl)
