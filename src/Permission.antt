-- ===== src/Permission.antt =====
-- backend/src/permissions/permission.service.ts: who may do what with an app, and whose records. A
-- call reads one state of the tables.
pub mod Rights
pub mod Scope
pub mod Visible
