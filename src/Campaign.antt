-- ===== src/Campaign.antt =====
-- internal/campaign/campaign.go: the repetitions of one configuration, and their summaries.
pub mod Types
pub mod Scalars
pub mod Summaries
pub mod Run
pub mod Accounts
pub mod Whole
pub mod Examples
