-- ===== src/Records.antt =====
-- The records of an app: what is let in (record-input.util.ts), the calculated fields, the writes of
-- records.service.ts, and the cells of its CSV export.
pub mod Input
pub mod Csv
pub mod Computed
pub mod Service
pub mod Trash
pub mod Import
pub mod Access
