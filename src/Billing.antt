-- ===== src/Billing.antt =====
-- The billing service, billing-service (Go): pricing.go, and of auth.go, api_keys.go and service.go the
-- API keys, the plans, the magic links, the subscriptions and the organizations.
pub mod Int64
pub mod Pricing
pub mod Invoice
pub mod Keys
pub mod Plans
pub mod MagicLink
pub mod Subscription
pub mod Organizations
use temporal_cloud_offering.Text.{Text}

-- A result of Go: a value, or an error with its first words.
pub data Checked {ℓ} (A : Type ℓ) : Type ℓ where
  ok : A → Checked A
  err : Text → Checked A
