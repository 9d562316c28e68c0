-- ===== src/ExportController/Failures.antt =====
-- The errors of a reconciliation of an export (clusterimageexport_controller.go): which calls may find
-- nothing, what is returned, and the errors of the goroutines of a listing.
pub mod Reported
use kubernetes_images_sync_o.Base.{◌≡◌, ◌⊎◌, refl, inl, inr, List, [], ◌∷◌}
use kubernetes_images_sync_o.Errors
use kubernetes_images_sync_o.Errors.{Error, Result, ok, err, Result-cases}
use kubernetes_images_sync_o.Progress.{failed}
use kubernetes_images_sync_o.Api.{ClusterImageExport}
use kubernetes_images_sync_o.Containers.{ContainersList}
use kubernetes_images_sync_o.Cluster.{
  Call, World, Operator, Workload, WorkloadKind, deployments, jobs, daemon_sets, cron_jobs,
}
use kubernetes_images_sync_o.Cluster.Op.{Op, ◌>>=◌, write, record_call}
use kubernetes_images_sync_o.Cluster.Stops.{
  Reporting, IsAnswered, AllFine, Stopped, Stops, Stops-call, Stops-bind, failure, error_of,
}
use kubernetes_images_sync_o.Workers
use kubernetes_images_sync_o.Workers.{
  list_all_resources, list_and_process_resources, process_workloads,
}
use kubernetes_images_sync_o.Workers.Worked.{AreDone, process_workloads-AreDone}
use kubernetes_images_sync_o.Reference.Cache.{IsSound}
use kubernetes_images_sync_o.Workers.Reported.{IsWorkError, process_workloads-err}
use kubernetes_images_sync_o.ExportController.Methods

-- The calls that may find nothing: the export is gone, or an image is not there yet.
abbrev pub MayMiss : Call → Type 0
MayMiss (Call.get_export key) = Unit
MayMiss (Call.get_image key) = Unit
MayMiss c = ⊥

-- The error of a call, as it is returned.
abbrev pub Reports : Error → Error → Type 0
Reports e e' = (e' ≡ e) ⊎ (e' ≡ Errors.list_resources e)

-- The call is a listing of workloads that was answered, and the work on them failed.
abbrev pub IsWorkOf : World → List Call → Call → Error → Type 0
IsWorkOf world before c e' =
    (kind : WorkloadKind) × (items : List Workload) × (c ≡ Call.list_workloads kind)
    × (world.workloads_in before kind ≡ ok items)
    × IsWorkError world (c ∷ before) items e'

-- A listing of workloads that was answered, and the work on them was done.
abbrev pub GoesWell : World → List Call → Call → Type 0
GoesWell world before (Call.list_workloads kind) =
    (items : List Workload) × (world.workloads_in before kind ≡ ok items)
    × AreDone world (Call.list_workloads kind ∷ before) items
GoesWell world before c = Unit

abbrev pub reporting : World → Reporting
reporting world = record {
  MayMiss = MayMiss;
  GoesWell = GoesWell world;
  Holds = IsSound;
  Blames = λ before c e'. IsAnswered world MayMiss Reports before c e' ⊎ IsWorkOf world before c e';
}

module _ (world : World) where
  abbrev pub StopsHere : {A : Type 0} → Op A → Type 0
  StopsHere m = Stops world (reporting world) m

  pub strict-Stops :
      {A : Type 0} (answer : Operator → Result A) (c : Call)
      → ¬ MayMiss c
      → ((before : List Call) → GoesWell world before c)
      → ((s : Operator) → failure world s.calls c ≡ error_of (answer s))
      → StopsHere (λ s. (answer s, record_call c s))
  strict-Stops answer c strict well same =
      Stops-call world (reporting world) answer c (λ before e h. inl (e, h, inr strict, inl refl))
        well same

  pub write-Stops :
      (c : Call)
      → ¬ MayMiss c
      → ((before : List Call) → GoesWell world before c)
      → ((s : Operator) → failure world s.calls c ≡ error_of (world.written s.calls c))
      → StopsHere (write world c)
  write-Stops c strict well same = strict-Stops (λ s. world.written s.calls c) c strict well same

  pub status-Stops :
      (w : ClusterImageExport) → StopsHere (write world (Call.update_export_status w))
  status-Stops w = write-Stops (Call.update_export_status w) (λ m. m) (λ before. tt) (λ s. refl)

  -- The goroutines over the listed workloads.
  worked-Stopped :
      (kind : WorkloadKind) (items : List Workload) (list : ContainersList) (s : Operator)
      → world.workloads_in s.calls kind ≡ ok items
      → IsSound s.cache
      → AllFine world (reporting world) s.calls
      → let run = process_workloads world items list (record_call (Call.list_workloads kind) s) in
        Stopped world (reporting world) run × IsSound run.1.cache
  unfolding process_workloads
  worked-Stopped kind items list s listed sound fine =
      let start = record_call (Call.list_workloads kind) s in
      let (sound', done_well) = process_workloads-AreDone world items list start sound in
      elim (Result-cases (process_workloads world items list start).0) [
        | inl (out, e) ↦
            let good : Stopped world (reporting world) (process_workloads world items list start) =
              rw e ((inl (rw listed refl), (items, listed, done_well out e)), fine) in
            (good, sound')
        | inr (x, e) ↦
            let bad : Stopped world (reporting world) (process_workloads world items list start) =
              rw e (
                Call.list_workloads kind,
                s.calls,
                refl,
                fine,
                inr (kind, items, refl, listed, process_workloads-err world items list start x e),
              ) in
            (bad, sound')
      ]

  listed-Stopped :
      (kind : WorkloadKind) (list : ContainersList) (s : Operator) (answer : Result (List Workload))
      → world.workloads_in s.calls kind ≡ answer
      → IsSound s.cache
      → AllFine world (reporting world) s.calls
      → let run =
          (Workers.listed world answer >>= λ items. process_workloads world items list)
            (record_call (Call.list_workloads kind) s) in
        Stopped world (reporting world) run × IsSound run.1.cache
  listed-Stopped kind list s (ok items) e sound fine = worked-Stopped kind items list s e sound fine
  listed-Stopped kind list s (err x) e sound fine = (
    (Call.list_workloads kind, s.calls, refl, fine, inl (x, rw e refl, inr (λ m. m), inr refl)),
    sound,
  )

  resources-Stops :
      (kind : WorkloadKind) (list : ContainersList)
      → StopsHere (list_and_process_resources world kind list)
  unfolding list_and_process_resources
  resources-Stops kind list = record {
    at = λ s sound fine.
        listed-Stopped kind list s (world.workloads_in s.calls kind) refl sound fine;
  }

  pub list_all-Stops : StopsHere (list_all_resources world)
  unfolding list_all_resources
  list_all-Stops = Stops-bind world (reporting world) _ _ (resources-Stops deployments []) (λ a.
      Stops-bind world (reporting world) _ _ (resources-Stops jobs a) (λ b.
        Stops-bind world (reporting world) _ _ (resources-Stops daemon_sets b)
          (λ c. resources-Stops cron_jobs c)))
