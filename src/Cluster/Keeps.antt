-- ===== src/Cluster/Keeps.antt =====
-- What a method keeps true of the operator, and of the calls that it makes: one rule for each way to
-- build a method.
use kubernetes_images_sync_o.Base.{◌≡◌, refl, Bool, true, false, All, if◌then◌else◌, subst}
use kubernetes_images_sync_o.Errors.{Error, Result, ok, err}
use kubernetes_images_sync_o.Cluster.{Call, Operator}
use kubernetes_images_sync_o.Cluster.Op.{Op, pure, raise, ◌>>=◌, continue, attempt, record_call}

-- All calls so far are allowed.
abbrev pub AllCalls : (Call → Type 0) → Operator → Type 0
AllCalls Allowed s = All Allowed s.calls

module _ (I : Operator → Type 0) where
  -- The method keeps `I`, also where it fails, and a value that it returns has `R`.
  pub record Keeps {A : Type 0} (R : A → Type 0) (m : Op A) : Type 0 where
    pub at : (s : Operator) → I s → I (m s).1 × ((a : A) → (m s).0 ≡ ok a → R a)

  module _ {A : Type 0} {R : A → Type 0} where
    pub Keeps-pure : (a : A) → R a → Keeps R (pure a)
    Keeps-pure a r = record { at = λ s h. (h, λ b e. subst R (cc) r) }

    pub Keeps-raise : (e : Error) → Keeps R (raise e)
    Keeps-raise e = record { at = λ s h. (h, λ b p. cc) }

    -- One call, whatever it answers.
    pub Keeps-call :
        (answer : Operator → Result A) (c : Call)
        → ((s : Operator) → I s → I (record_call c s))
        → ((a : A) → R a)
        → Keeps R (λ s. (answer s, record_call c s))
    Keeps-call answer c kept r = record { at = λ s h. (kept s h, λ a e. r a) }

  module _ {A B : Type 0} {Q : B → Type 0} where
    Keeps-continue :
        (r : Result A) (s : Operator) (f : A → Op B)
        → I s
        → ((a : A) → r ≡ ok a → Keeps Q (f a))
        → I (continue r s f).1 × ((b : B) → (continue r s f).0 ≡ ok b → Q b)
    Keeps-continue (ok a) s f h k = (k a refl).at s h
    Keeps-continue (err e) s f h k = (h, λ b p. cc)

  module _ {A : Type 0} {R : A → Type 0} where
    -- The error of a method, handed on as a value.
    pub Keeps-attempt : (m : Op A) → Keeps R m → Keeps (λ r. (a : A) → r ≡ ok a → R a) (attempt m)
    Keeps-attempt m km = record {
      at = λ s h. let (kept, returns) = km.at s h in (kept, λ r e a p. returns a (cc));
    }

    pub Keeps-if :
        (b : Bool) (m n : Op A)
        → (b ≡ true → Keeps R m)
        → (b ≡ false → Keeps R n)
        → Keeps R (if b then m else n)
    Keeps-if true m n km kn = km refl
    Keeps-if false m n km kn = kn refl

  module _ {A B : Type 0} {R : A → Type 0} {Q : B → Type 0} where
    pub Keeps-bind :
        (m : Op A) (f : A → Op B) → Keeps R m → ((a : A) → R a → Keeps Q (f a)) → Keeps Q (m >>= f)
    Keeps-bind m f km kf = record {
      at = λ s h.
          let (kept, returns) = km.at s h in
          Keeps-continue (m s).0 (m s).1 f kept (λ a e. kf a (returns a e));
    }

-- A call that is allowed.
pub Keeps-allowed :
    (Allowed : Call → Type 0) {A : Type 0} {R : A → Type 0} (answer : Operator → Result A)
    (c : Call)
    → Allowed c
    → ((a : A) → R a)
    → Keeps (AllCalls Allowed) R (λ s. (answer s, record_call c s))
Keeps-allowed Allowed answer c allowed r =
    Keeps-call (AllCalls Allowed) answer c (λ s h. (allowed, h)) r
