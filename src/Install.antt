-- ===== src/Install.antt =====
-- pkg/install/install.go: the installation of the credential provider binaries.
pub mod Files
pub mod Compare
pub mod Copy
pub mod Run
pub mod Whole
pub mod Again
pub mod Atomic
