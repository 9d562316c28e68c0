-- ===== src/Jobs/Volumes.antt =====
-- The volumes of a job: one for each pull secret, under names that differ.
use mathlib.Core.Logic.Or
use mathlib.Core.HLevel.{⊥_prop}
use mathlib.Core.List.{Mem, mem-cons, not-mem-nil, Nodup, Nodup-nil, Nodup-cons}
use kubernetes_images_sync_o.Base.{
  ℕ, zero, suc, ◌+◌, ◌-◌, ◌*◌, ◌/◌, ◌%◌, ◌<◌, ◌≡◌, ◌≢◌, refl, sym, ap, ◌∙◌, inl, inr, Bool-cases,
  List, [], ◌∷◌, ◌++◌, map, arith, ltb, All,
}
use kubernetes_images_sync_o.Text.{Text, codes}
use kubernetes_images_sync_o.Jobs.{
  Volume, VolumeMount, JobParams, JobContainer, digits, show, secret_volume, secret_mount,
  add_secrets, create_job,
}

-- The number that a run of decimal digits stands for, behind the number read so far.
value_from : ℕ → Text → ℕ
value_from n [] = n
value_from n (c ∷ t) = value_from (n * 10 + (c - b'0')) t

last_digit : (n : ℕ) (out : Text) → value_from (n / 10) ((n % 10 + b'0') ∷ out) ≡ value_from n out
unfolding value_from
last_digit n out = ap (λ k. value_from k out) (omega arith)

only_digit : (n : ℕ) (out : Text) → value_from 0 ((n + b'0') ∷ out) ≡ value_from n out
unfolding value_from
only_digit n out = ap (λ k. value_from k out) (omega arith)

value_from-digits :
    (fuel n : ℕ) (out : Text) → n < fuel → value_from 0 (digits fuel n out) ≡ value_from n out
unfolding digits
value_from-digits zero n out h = elim h [ ]
value_from-digits (suc fuel) n out h = elim (Bool-cases (ltb n 10)) [
  | inl e ↦ rw e (only_digit n out)
  | inr e ↦ rw e (value_from-digits fuel (n / 10) _ (ground arith) ∙ last_digit n out)
]

-- Two numbers that are printed alike are equal.
show-injective : (m n : ℕ) → show m ≡ show n → m ≡ n
unfolding show value_from
show-injective m n e =
    sym (value_from-digits (suc m) m [] (omega arith))
    ∙ ap (value_from 0) e
    ∙ value_from-digits (suc n) n [] (omega arith)

append-injective : (p s t : Text) → p ++ s ≡ p ++ t → s ≡ t
append-injective [] s t e = e
append-injective (c ∷ p) s t e = append-injective p s t (cc)

not-mem_of_All : {a : Text} (xs : List Text) → All (λ x. x ≢ a) xs → ¬ Mem a xs
not-mem_of_All [] h m = not-mem-nil m
not-mem_of_All (x ∷ xs) h m =
    Or.elim ⊥_prop (mem-cons.0 m) (λ e. h.0 (sym e)) (not-mem_of_All xs h.1)

abbrev names : ℕ → List Text → List Text
names i secrets = map (λ (v : Volume). v.name) (add_secrets i secrets).0

names_differ :
    (i j : ℕ) (secrets : List Text)
    → j < i
    → All (λ x. x ≢ codes "secret-" ++ show j) (names i secrets)
unfolding add_secrets secret_volume
names_differ i j [] h = tt
names_differ i j (s ∷ secrets) h = (
  (λ e. absurd (omega (arith, show-injective i j (append-injective (codes "secret-") _ _ e)))),
  names_differ (suc i) j secrets (omega arith),
)

Nodup-names : (i : ℕ) (secrets : List Text) → Nodup (names i secrets)
unfolding add_secrets secret_volume
Nodup-names i [] = Nodup-nil
Nodup-names i (s ∷ secrets) =
    Nodup-cons.1
      (not-mem_of_All _ (names_differ (suc i) i secrets (omega arith)), Nodup-names (suc i) secrets)

secrets_of_volumes :
    (i : ℕ) (secrets : List Text)
    → map (λ (v : Volume). v.secret_name) (add_secrets i secrets).0 ≡ secrets
unfolding add_secrets secret_volume
secrets_of_volumes i [] = refl
secrets_of_volumes i (s ∷ secrets) = ap (λ t. s ∷ t) (secrets_of_volumes (suc i) secrets)

names_of_mounts :
    (i : ℕ) (secrets : List Text)
    → map (λ (m : VolumeMount). m.name) (add_secrets i secrets).1 ≡ names i secrets
unfolding add_secrets secret_volume secret_mount
names_of_mounts i [] = refl
names_of_mounts i (s ∷ secrets) =
    ap (λ t. (codes "secret-" ++ show i) ∷ t) (names_of_mounts (suc i) secrets)

-- A job has one volume for each pull secret, in order, under names that differ, and its container
-- mounts just these volumes.
pub create_job-volumes :
    (params : JobParams)
    → let spec = (create_job params).template_spec in
      (map (λ (v : Volume). v.secret_name) spec.volumes ≡ params.image_pull_secrets)
      × Nodup (map (λ (v : Volume). v.name) spec.volumes)
      × (map
            (λ (c : JobContainer). map (λ (m : VolumeMount). m.name) c.volume_mounts)
            spec.containers
          ≡ map (λ (v : Volume). v.name) spec.volumes ∷ [])
unfolding create_job
create_job-volumes params = (
  secrets_of_volumes 0 params.image_pull_secrets,
  Nodup-names 0 params.image_pull_secrets,
  ap (λ t. t ∷ []) (names_of_mounts 0 params.image_pull_secrets),
)
