-- ===== src/ExportController.antt =====
-- internal/controller/raczylo.com/clusterimageexport_controller.go: the reconciler of an export.
pub mod Cleanup
pub mod Selection
pub mod Selected
pub mod Methods
pub mod Lifecycle
pub mod Failures
pub mod Additional
pub mod Exported
pub mod Listing
pub mod Naming
pub mod Waiting
pub mod Completion
pub mod Creation
pub mod Loop
