-- ===== src/ImageController/Failures.antt =====
-- The errors of a reconciliation of an image: which calls may find nothing, and what is returned.
pub mod Steps
pub mod Reported
use kubernetes_images_sync_o.Base.{◌≡◌, ◌⊎◌, refl, inl, inr}
use kubernetes_images_sync_o.Errors
use kubernetes_images_sync_o.Errors.{Error, Result}
use kubernetes_images_sync_o.Cluster.{Call, World, Operator}
use kubernetes_images_sync_o.Cluster.Op.{record_call}
use kubernetes_images_sync_o.Cluster.Stops.{
  Reporting, IsAnswered, Stops, Stops-call, failure, error_of,
}

-- The calls that may find nothing: the image is gone, its job is not there, or has been deleted.
abbrev pub MayMiss : Call → Type 0
MayMiss (Call.get_image key) = Unit
MayMiss (Call.get_job key) = Unit
MayMiss (Call.delete_job policy key) = Unit
MayMiss c = ⊥

-- The error of a call, as it is returned.
abbrev pub Reports : Error → Error → Type 0
Reports e e' = (e' ≡ e) ⊎ (e' ≡ Errors.delete_job e) ⊎ (e' ≡ Errors.delete_pods e)

abbrev pub reporting : World → Reporting
reporting world = record {
  MayMiss = MayMiss;
  GoesWell = λ before c. Unit;
  Holds = λ cache. Unit;
  Blames = IsAnswered world MayMiss Reports;
}

-- A call that must find its object, and whose error is returned as it is.
pub strict-Stops :
    {A : Type 0} (world : World) (answer : Operator → Result A) (c : Call)
    → ¬ MayMiss c
    → ((s : Operator) → failure world s.calls c ≡ error_of (answer s))
    → Stops world (reporting world) (λ s. (answer s, record_call c s))
strict-Stops world answer c strict same =
    Stops-call world (reporting world) answer c (λ before e h. (e, h, inr strict, inl refl))
      (λ before. tt) same
