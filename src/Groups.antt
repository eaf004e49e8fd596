-- ===== src/Groups.antt =====
-- backend/src/groups/groups.service.ts: the departments, their tree, and who belongs to them.
pub mod Ops
pub mod Import
pub mod Listing
pub mod Reorder
