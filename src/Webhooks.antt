-- ===== src/Webhooks.antt =====
-- `src/api/webhooks/git-webhook.controller.ts`: a push to a repository starts a run.
mod GitWebhook
pub mod Push
unfoldable pub use GitWebhook.*
