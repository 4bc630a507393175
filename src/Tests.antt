-- ===== src/Tests.antt =====
-- Runs of the model on small inputs, and the theorems applied to them.
mod Points
mod Detection
mod Requests
mod Syncs
mod Moderation
mod Labels
mod Amounts
mod Github
mod Webhooks
mod Tracked
mod Bounties
mod Sponsored
mod Payments
mod Deliveries
