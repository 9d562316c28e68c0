-- ===== src/Samples/Fleet.antt =====
-- Two new images that share one slot; the jobs of both succeed.
use kubernetes_images_sync_o.Base.{
  Bool, ◌&&◌, false, ℕ, zero, suc, ◌≡◌, ◌≢◌, refl, subst, true, pos, ◌≤ℤ◌, List, [], ◌∷◌, inl,
  arith, if◌then◌else◌,
}
use kubernetes_images_sync_o.Text.{codes, text_eq}
use kubernetes_images_sync_o.Errors.{ok, err, not_found}
use kubernetes_images_sync_o.Progress.{unset}
use kubernetes_images_sync_o.Api.{ClusterImage, ClusterImageExport}
use kubernetes_images_sync_o.Cluster.{World, Operator}
use kubernetes_images_sync_o.ImageController.Methods
use kubernetes_images_sync_o.ImageController.JobEnd.{own_key, same_key}
use kubernetes_images_sync_o.ImageController.Settling.{is_busy, Serves, as_read}
use kubernetes_images_sync_o.ImageController.Fleet.{
  busy_rounds, Member, In, here, there, IsApart, AllApart, ServesAll, sum, round_robin, AllSettled,
}
use kubernetes_images_sync_o.ImageController.Fleet.Settles.{fleet_settles}
use kubernetes_images_sync_o.Samples.Worlds.{
  export_progress, cluster, idle, sample_export, image_at_status, done_job, calm_pod,
}

abbrev first : ClusterImage
first = image_at_status (codes "a") unset

abbrev second : ClusterImage
second = image_at_status (codes "b") unset

abbrev narrow : ClusterImageExport
narrow = record sample_export { spec = record sample_export.spec { max_concurrent_jobs = pos 1 } }

abbrev fleet : List Member
fleet = record { image = first; export = narrow } ∷ record { image = second; export = narrow } ∷ []

abbrev serving : World
serving = record (cluster (err not_found) []) {
  image_at = λ calls key.
      if same_key key (own_key first) then ok (as_read first calls) else ok (as_read second calls);
  export_at = λ calls key. ok (record narrow { progress = export_progress calls });
}

first-Serves : Serves serving (own_key first) first narrow
unfolding text_eq
first-Serves = record {
  healthy = λ calls c. refl;
  image_read = λ calls. refl;
  export_read = λ calls. (export_progress calls, refl);
  listing = λ calls. ([], refl);
  pods = λ namespace labels. calm_pod ∷ [];
  pods_read = λ namespace labels calls. refl;
  job_read = λ calls. inl (done_job, refl, refl);
}

second-Serves : Serves serving (own_key second) second narrow
unfolding text_eq
second-Serves = record {
  healthy = λ calls c. refl;
  image_read = λ calls. refl;
  export_read = λ calls. (export_progress calls, refl);
  listing = λ calls. ([], refl);
  pods = λ namespace labels. calm_pod ∷ [];
  pods_read = λ namespace labels calls. refl;
  job_read = λ calls. inl (done_job, refl, refl);
}

fleet-ServesAll : ServesAll serving fleet
fleet-ServesAll _ here = (first-Serves, omega arith)
fleet-ServesAll _ (there here) = (second-Serves, omega arith)
fleet-ServesAll m (there (there i)) = elim i [ ]

names_apart : own_key first ≢ own_key second
unfolding text_eq
names_apart e =
    let same : text_eq (codes "a") (codes "b") ≡ true =
      subst (λ k. text_eq (codes "a") k.name ≡ true) e refl in
    cc

first-IsApart :
    (n : Member)
    → In n (record { image = second; export = narrow } ∷ [])
    → IsApart (record { image = first; export = narrow }) n
first-IsApart _ here = names_apart
first-IsApart n (there i) = elim i [ ]

fleet-AllApart : AllApart fleet
fleet-AllApart = (first-IsApart, ((λ n i. elim i [ ]), tt))

and_false : (b : Bool) → (b && false) ≡ false
and_false true = refl
and_false false = refl

never_busy : (n : ℕ) (s : Operator) → busy_rounds serving fleet n s ≡ 0
never_busy zero s = refl
never_busy (suc n) s =
    let after = (Methods.reconcile serving (own_key first) s).1 in
    let first_not : is_busy serving (own_key first) first s.calls ≡ false = and_false _ in
    let second_not : is_busy serving (own_key second) second after.calls ≡ false = and_false _ in
    rw (first_not, second_not)
      (omega (arith, never_busy n (Methods.reconcile serving (own_key second) after).1))

fleet_settles_example :
    AllSettled fleet (round_robin serving fleet 30 idle)
    × ((round_robin serving fleet 30 idle).active_jobs ≤ℤ pos 0)
unfolding sum
fleet_settles_example =
    fleet_settles serving fleet idle 30 fleet-ServesAll fleet-AllApart (omega arith)
      (omega (arith, never_busy 30 idle))
