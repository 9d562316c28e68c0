-- ===== src/ImageController.antt =====
-- internal/controller/raczylo.com/clusterimage_controller.go: the reconciler of one image.
pub mod Backup
pub mod Aggregate
pub mod Methods
pub mod Quiet
pub mod Slots
pub mod Rest
pub mod Limit
pub mod Permitted
pub mod Restarts
pub mod Running
pub mod Lifecycle
pub mod Aggregation
pub mod Outcomes
pub mod JobEnd
pub mod Settling
pub mod Fleet
pub mod Failures
