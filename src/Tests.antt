-- ===== src/Tests.antt =====
-- Runs at concrete inputs: tests, and the theorems at inputs that meet their hypotheses.
mod Sample
mod Accounts
mod Pulls
mod Access
mod Hubs
mod Reviews
mod Teams
mod Listings
mod Logins
mod Trackers
mod Users
mod Limits
mod Visits
mod Webhooks
mod Queues
mod Keys
mod Notes
mod Repos
mod Github
