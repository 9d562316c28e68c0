-- ===== src/Startup.antt =====
-- cmd/main.go, api/raczylo.com/v1/groupversion_info.go and the registration of the controllers: how
-- the operator is configured and started. The manager, its servers, the clientset and the scheme's
-- maps are controller-runtime's and client-go's: `main` hands them what is modelled here, and each
-- call that can fail is an `Action` that the environment answers.
pub mod Options
pub mod Run
pub mod Indexers
pub mod Sequence
pub mod Served
