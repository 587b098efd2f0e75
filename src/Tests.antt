-- ===== src/Tests.antt =====
-- Runs of the models at concrete inputs, and the theorems applied there.
mod Fixtures
mod Keys
mod Sessions
mod Migrations
mod Tenants
mod Contents
mod Users
mod Audits
mod Notices
mod Requests
