-- ===== src/Auth.antt =====
-- agentkit/auth.py: access and refresh tokens, the check of a token, and of a webhook's signature.
pub mod Tokens
pub mod Webhook
mod Tests
