-- ===== src/Tests.antt =====
-- Runs of the model on concrete data, and the theorems applied to them.
mod Organisation
mod Permissions
mod Departments
mod Spreadsheets
mod Listings
mod Limiter
mod Formulas
mod Records
mod Access
mod Definitions
mod Exports
mod Uploads
mod Notices
mod Sessions
