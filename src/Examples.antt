-- ===== src/Examples.antt =====
-- Runs of the components on small inputs.
mod Governance
mod Changes
mod Permissions
mod Metadata
mod Jobs
mod Webhooks
mod Text
mod Audit
mod Augmentation
mod Access
mod Evidence
mod Resolution
mod Retention
