-- ===== src/Dynamic.antt =====
-- pkg/credentialprovider/dynamic: the dynamic credential provider.
pub mod Provider
pub mod Select
pub mod Response
pub mod Executor
pub mod Plugin
pub mod Register
pub mod Whole
