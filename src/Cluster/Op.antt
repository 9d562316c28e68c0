-- ===== src/Cluster/Op.antt =====
-- Methods of the reconcilers: they change the operator's state, make calls, and may return an error.
-- `if err != nil { return err }` is the bind; `attempt` hands the error to the code that looks at it.
use kubernetes_images_sync_o.Base.{List, ◌∷◌}
use kubernetes_images_sync_o.Text.{Text}
use kubernetes_images_sync_o.Errors.{Error, Result, ok, err}
use kubernetes_images_sync_o.Api.{Annotations, ClusterImage, ClusterImageExport}
use kubernetes_images_sync_o.Cluster.{
  Call, Key, JobObject, Pod, Workload, WorkloadKind, Scope, World, Operator,
}

abbrev pub Op {ℓ} : Type ℓ → Type ℓ
Op A = Operator → Result A × Operator

abbrev pub pure {ℓ} : {A : Type ℓ} → A → Op A
pure a s = (ok a, s)

abbrev pub raise {ℓ} : {A : Type ℓ} → Error → Op A
raise e s = (err e, s)

abbrev pub continue {ℓ κ} :
    {A : Type ℓ} {B : Type κ} → Result A → Operator → (A → Op B) → Result B × Operator
continue (ok a) s f = f a s
continue (err e) s f = (err e, s)

infixl 5 ◌>>=◌ ◌>>◌
abbrev pub ◌>>=◌ {ℓ κ} :
    {A : Type ℓ} {B : Type κ} → Op A → (A → Op B) → Operator → Result B × Operator
◌>>=◌ m f s = let (r, s') = m s in continue r s' f

abbrev pub ◌>>◌ {ℓ} : {B : Type ℓ} → Op (Unit {0}) → Op B → Operator → Result B × Operator
m >> k = m >>= λ _. k

abbrev pub attempt {ℓ} : {A : Type ℓ} → Op A → Op (Result A)
attempt m s = let (r, s') = m s in (ok r, s')

abbrev pub record_call : Call → Operator → Operator
record_call c s = record s { calls = c ∷ s.calls }

module _ (world : World) where
  abbrev pub get_image : Key → Op ClusterImage
  get_image key s = (world.image_at s.calls key, record_call (Call.get_image key) s)

  abbrev pub get_export : Key → Op ClusterImageExport
  get_export key s = (world.export_at s.calls key, record_call (Call.get_export key) s)

  abbrev pub get_job : Key → Op JobObject
  get_job key s = (world.job_at s.calls key, record_call (Call.get_job key) s)

  abbrev pub list_images : Scope → Op (List ClusterImage)
  list_images scope s = (world.images_in s.calls scope, record_call (Call.list_images scope) s)

  abbrev pub list_pods : Text → Annotations → Op (List Pod)
  list_pods namespace labels s =
      (world.pods_in s.calls namespace labels, record_call (Call.list_pods namespace labels) s)

  abbrev pub list_jobs : Text → Annotations → Op (List JobObject)
  list_jobs namespace labels s =
      (world.jobs_in s.calls namespace labels, record_call (Call.list_jobs namespace labels) s)

  abbrev pub list_workloads : WorkloadKind → Op (List Workload)
  list_workloads kind s =
      (world.workloads_in s.calls kind, record_call (Call.list_workloads kind) s)

  -- A call that changes the cluster.
  abbrev pub write : Call → Op (Unit {0})
  write c s = (world.written s.calls c, record_call c s)
