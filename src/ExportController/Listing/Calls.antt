-- ===== src/ExportController/Listing/Calls.antt =====
-- The calls of `listImagesInCluster` (clusterimageexport_controller.go), and the cache behind it.
use kubernetes_images_sync_o.Base.{ap, ◌∙◌, ◌≡◌, List, [], ◌∷◌}
use kubernetes_images_sync_o.Errors.{ok}
use kubernetes_images_sync_o.Api.{ClusterImageExport}
use kubernetes_images_sync_o.Containers.{ContainersList}
use kubernetes_images_sync_o.Reference.Cache.{IsSound}
use kubernetes_images_sync_o.Cluster.{
  Call, World, Operator, WorkloadKind, deployments, jobs, daemon_sets, cron_jobs,
}
use kubernetes_images_sync_o.Cluster.Op.{Op, pure, ◌>>=◌, continue}
use kubernetes_images_sync_o.Cluster.Keeps.{Keeps, Keeps-bind, Keeps-pure}
use kubernetes_images_sync_o.Workers.{list_and_process_resources, list_all_resources}
use kubernetes_images_sync_o.Workers.Gathered.{EachOnce, list_and_process_resources_lem}
use kubernetes_images_sync_o.ExportController.Listing.Growth.{
  bind_ok, list_and_process_resources-calls,
}
use kubernetes_images_sync_o.ExportController.Methods
use kubernetes_images_sync_o.ExportController.Selection.{select_images}

-- The calls of the listing of workloads, behind these calls.
abbrev pub listed_calls : List Call → List Call
listed_calls calls =
    Call.list_workloads cron_jobs
    ∷ Call.list_workloads daemon_sets
    ∷ Call.list_workloads jobs
    ∷ Call.list_workloads deployments
    ∷ calls

module _ (world : World) where
  abbrev IsSoundNow : Operator → Type 0
  IsSoundNow s = IsSound s.cache

  kind_sound :
      EachOnce world
      → (kind : WorkloadKind) (list : ContainersList)
      → Keeps IsSoundNow (λ _. Unit {0}) (list_and_process_resources world kind list)
  kind_sound once kind list = record {
    at = λ s h. ((list_and_process_resources_lem world kind list s once h).0, λ _ _. tt);
  }

  pub list_images_sound :
      EachOnce world
      → (export : ClusterImageExport)
      → Keeps IsSoundNow (λ _. Unit {0}) (Methods.list_images_in_cluster world export)
  unfolding Methods.list_images_in_cluster list_all_resources
  list_images_sound once export =
      Keeps-bind IsSoundNow (list_all_resources world) _
        (Keeps-bind IsSoundNow _ _ (kind_sound once deployments []) (λ a _.
          Keeps-bind IsSoundNow _ _ (kind_sound once jobs a) (λ b _.
            Keeps-bind IsSoundNow _ _ (kind_sound once daemon_sets b)
              (λ c _. kind_sound once cron_jobs c))))
        (λ list _. Keeps-pure IsSoundNow (select_images world.unicode_lower export.spec list) tt)

  -- One listing that returns has made one call.
  kind_calls :
      {A : Type 0} (kind : WorkloadKind) (list : ContainersList) (k : ContainersList → Op A)
      (s : Operator) (a : A)
      → ((list_and_process_resources world kind list >>= k) s).0 ≡ ok a
      → (out : ContainersList) × (t : Operator) × (t.calls ≡ Call.list_workloads kind ∷ s.calls)
        × ((k out t).0 ≡ ok a)
        × ((list_and_process_resources world kind list >>= k) s ≡ k out t)
  kind_calls kind list k s a h =
      let m = list_and_process_resources world kind list in
      let (out, e, rest) = bind_ok m k s a h in
      (
        out,
        (m s).1,
        list_and_process_resources-calls world kind list s,
        rest,
        ap (λ r. continue r (m s).1 k) e,
      )

  list_all-calls :
      (s : Operator) (out : ContainersList)
      → (list_all_resources world s).0 ≡ ok out
      → (list_all_resources world s).1.calls ≡ listed_calls s.calls
  unfolding list_all_resources
  list_all-calls s out h =
      let (l1, s1, c1, h1, e1) = kind_calls deployments [] _ s out h in
      let (l2, s2, c2, h2, e2) = kind_calls jobs l1 _ s1 out h1 in
      let (l3, s3, c3, h3, e3) = kind_calls daemon_sets l2 _ s2 out h2 in
      let last = list_and_process_resources-calls world cron_jobs l3 s3 in
      ap (λ r. r.1.calls) (e1 ∙ e2 ∙ e3)
      ∙ last
      ∙ ap (λ calls. Call.list_workloads cron_jobs ∷ calls)
          (c3
            ∙ ap (λ calls. Call.list_workloads daemon_sets ∷ calls)
                (c2 ∙ ap (λ calls. Call.list_workloads jobs ∷ calls) c1))

  pub list_images-calls :
      (export : ClusterImageExport) (s : Operator) (out : ContainersList)
      → (Methods.list_images_in_cluster world export s).0 ≡ ok out
      → (Methods.list_images_in_cluster world export s).1.calls ≡ listed_calls s.calls
  unfolding Methods.list_images_in_cluster
  list_images-calls export s out h =
      let (list, e, selected) = bind_ok (list_all_resources world) _ s out h in
      ap (λ r. r.1.calls)
        (ap
          (λ r.
            continue r (list_all_resources world s).1
              (λ list. pure (select_images world.unicode_lower export.spec list)))
          e)
      ∙ list_all-calls s list e
