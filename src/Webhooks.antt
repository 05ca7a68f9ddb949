-- ===== src/Webhooks.antt =====
-- pkg/webhooks: the admission webhook for DynamicCredentialProviderConfig.
pub mod Validation
pub mod Webhook
