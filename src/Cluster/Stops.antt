-- ===== src/Cluster/Stops.antt =====
-- Errors of a reconciliation: which calls have failed, and what is returned of it. One rule for each
-- way to build a method. A controller says which calls may find nothing, and what it returns.
use kubernetes_images_sync_o.Base.{
  ◌≡◌, ◌≢◌, ◌⊎◌, refl, ap, ◌∙◌, inl, inr, Bool, true, false, Option, none, some, List, [], ◌∷◌,
  if◌then◌else◌,
}
use kubernetes_images_sync_o.Errors.{Error, Result, ok, err, not_found}
use kubernetes_images_sync_o.Reference.{ContainerCache}
use kubernetes_images_sync_o.Cluster.{Call, World, Operator}
use kubernetes_images_sync_o.Cluster.Op.{Op, pure, raise, ◌>>=◌, continue, attempt, record_call}

abbrev pub error_of {ℓ} : {A : Type ℓ} → Result A → Option Error
error_of (ok a) = none
error_of (err e) = some e

-- The error that the cluster answers a call with, after the calls before it.
abbrev pub failure : World → List Call → Call → Option Error
failure world before (Call.get_image key) = error_of (world.image_at before key)
failure world before (Call.get_export key) = error_of (world.export_at before key)
failure world before (Call.get_job key) = error_of (world.job_at before key)
failure world before (Call.list_images scope) = error_of (world.images_in before scope)
failure world before (Call.list_pods namespace labels) =
    error_of (world.pods_in before namespace labels)
failure world before (Call.list_jobs namespace labels) =
    error_of (world.jobs_in before namespace labels)
failure world before (Call.list_workloads kind) = error_of (world.workloads_in before kind)
failure world before c = error_of (world.written before c)

-- What a controller does with errors: the calls that may find nothing, what else goes well with a call that
-- it goes on behind, and the errors that it may return behind a call, given the calls before; and
-- what it relies on of the cache.
pub record Reporting : Type 1 where
  pub MayMiss : Call → Type 0
  pub GoesWell : List Call → Call → Type 0
  pub Holds : ContainerCache → Type 0
  pub Blames : List Call → Call → Error → Type 0

-- An error that the code does not pass over.
abbrev pub Matters : (Call → Type 0) → Call → Error → Type 0
Matters may_miss c e = (e ≢ not_found) ⊎ ¬ may_miss c

-- The call has succeeded, or has found nothing where it may, and nothing else went wrong.
abbrev pub IsFine : World → Reporting → List Call → Call → Type 0
IsFine world reporting before c =
    ((failure world before c ≡ none)
      ⊎ ((failure world before c ≡ some not_found) × reporting.MayMiss c))
    × reporting.GoesWell before c

abbrev pub AllFine : World → Reporting → List Call → Type 0
AllFine world reporting [] = Unit
AllFine world reporting (c ∷ before) =
    IsFine world reporting before c × AllFine world reporting before

-- The call is answered with an error that matters, and this is what is returned of it.
abbrev pub IsAnswered :
    World → (Call → Type 0) → (Error → Error → Type 0) → List Call → Call → Error → Type 0
IsAnswered world may_miss reports before c e' =
    (e : Error) × (failure world before c ≡ some e) × Matters may_miss c e × reports e e'

-- A run that succeeds has made fine calls alone; one that fails has made fine calls before its last
-- one, and returns an error that this one is to blame for.
abbrev pub Stopped {ℓ} : {A : Type ℓ} → World → Reporting → Result A × Operator → Type 0
Stopped world reporting (ok a, s) = AllFine world reporting s.calls
Stopped world reporting (err e', s) =
    (c : Call) × (before : List Call) × (s.calls ≡ c ∷ before)
    × AllFine world reporting before
    × reporting.Blames before c e'

module _ (world : World) (reporting : Reporting) where
  pub record Stops {A : Type 0} (m : Op A) : Type 0 where
    pub at :
        (s : Operator)
        → reporting.Holds s.cache
        → AllFine world reporting s.calls
        → Stopped world reporting (m s) × reporting.Holds (m s).1.cache

  module _ {A : Type 0} where
    pub Stops-pure : (a : A) → Stops (pure a)
    Stops-pure a = record { at = λ s k h. (h, k) }

    pub Stops-if : (b : Bool) (m n : Op A) → Stops m → Stops n → Stops (if b then m else n)
    Stops-if true m n sm sn = sm
    Stops-if false m n sm sn = sn

    -- One call, whose error is returned.
    pub Stops-call :
        (answer : Operator → Result A) (c : Call)
        → ((before : List Call) (e : Error)
            → failure world before c ≡ some e
            → reporting.Blames before c e)
        → ((before : List Call) → reporting.GoesWell before c)
        → ((s : Operator) → failure world s.calls c ≡ error_of (answer s))
        → Stops (λ s. (answer s, record_call c s))
    Stops-call answer c blamed well same = record {
      at = λ s k h. (by_answer s h (answer s) (same s), k);
    }
      where
        by_answer :
            (s : Operator)
            → AllFine world reporting s.calls
            → (r : Result A) → failure world s.calls c ≡ error_of r
            → Stopped world reporting (r, record_call c s)
        by_answer s h (ok a) e = ((inl e, well s.calls), h)
        by_answer s h (err x) e = (c, s.calls, refl, h, blamed s.calls x e)

  module _ {A B : Type 0} where
    continue-Stopped :
        (r : Result A) (s : Operator) (f : A → Op B)
        → Stopped world reporting (r, s) × reporting.Holds s.cache
        → ((a : A) → Stops (f a))
        → Stopped world reporting (continue r s f) × reporting.Holds (continue r s f).1.cache
    continue-Stopped (ok a) s f (h, k) sf = (sf a).at s k h
    continue-Stopped (err e) s f h sf = h

    pub Stops-bind : (m : Op A) (f : A → Op B) → Stops m → ((a : A) → Stops (f a)) → Stops (m >>= f)
    Stops-bind m f sm sf = record {
      at = λ s k h. continue-Stopped (m s).0 (m s).1 f (sm.at s k h) sf;
    }

    -- A call whose error the code looks at: it is returned, or nothing was found where it may be so.
    pub Stops-attempt :
        (answer : Operator → Result A) (c : Call) (f : Result A → Op B)
        → ((before : List Call) → reporting.GoesWell before c)
        → ((s : Operator) → failure world s.calls c ≡ error_of (answer s))
        → ((a : A) → Stops (f (ok a)))
        → ((e : Error)
            → ((e' : Error) × (f (err e) ≡ raise e')
                × ((before : List Call)
                    → failure world before c ≡ some e
                    → reporting.Blames before c e'))
              ⊎ ((e ≡ not_found) × reporting.MayMiss c × Stops (f (err e))))
        → Stops (attempt (λ s. (answer s, record_call c s)) >>= f)
    Stops-attempt answer c f well same found failed = record {
      at = λ s k h. by_answer s k h (answer s) (same s);
    }
      where
        by_answer :
            (s : Operator)
            → reporting.Holds s.cache
            → AllFine world reporting s.calls
            → (r : Result A) → failure world s.calls c ≡ error_of r
            → Stopped world reporting (f r (record_call c s))
              × reporting.Holds (f r (record_call c s)).1.cache
        by_answer s k h (ok a) e = (found a).at (record_call c s) k ((inl e, well s.calls), h)
        by_answer s k h (err x) e = elim (failed x) [
          | inl (x', same_run, blamed) ↦ rw same_run ((c, s.calls, refl, h, blamed s.calls e), k)
          | inr (none_found, may_miss, stops) ↦
              stops.at (record_call c s) k
                ((inr (e ∙ ap some none_found, may_miss), well s.calls), h)
        ]
