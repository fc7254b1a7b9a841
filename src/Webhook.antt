-- ===== src/Webhook.antt =====
-- pkg/webhook/validating: the admission of objects by the validating webhook.
pub mod Cluster
pub mod Networks
pub mod Subnets
