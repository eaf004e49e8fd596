-- ===== src/Lib.antt =====
-- A verification library for the no-code application platform: the parts of its backend that
-- decide who may do what, that keep the tree of departments, the accounts and the records with
-- their calculated fields, and that queue the calls of the language model. The record calls ask
-- Permission which records a user may see; Records uses Formula for the fields that the server
-- fixes.
--
-- - Base: shared names, text, tests and lists. Text is the list of the UTF-16 code units of a
--   JavaScript string. An exception that a service throws is a `Failure`, and a call that may
--   throw answers with a `Result`.
-- - Schema: the rows of backend/prisma/schema.prisma. A table is the list of its rows, a query is
--   the filter that its `where` clause states, and the rows stand in any order. Keys and times
--   that the database makes are arguments.
-- - Org: the tree walk that backend/src/permissions/permission.service.ts (myScopeGroupIds) and
--   backend/src/groups/groups.service.ts (descendantGroupIds) write out each on its own:
--   `children_map` for the Map, `walk` and `collect` for the loops. The fuel is the number of the
--   rows and one for the start, since a row is pushed at most once (Org/Reach).
-- - Permission: PermissionService. Permission/Rights has getEffectivePermission (`effective`) and
--   assert; Permission/Scope has myScopeGroupIds, orgScopedUserIds, isUserInScope, isGroupInScope,
--   allowedCreatorIds and recordFieldScope; Permission/Visible has visibleAppIds.
-- - Groups: GroupsService. Groups/Ops has assertValidParent, create, update, remove, addMember and
--   removeMember; Groups/Import has importRows, Groups/Reorder reorder, Groups/Listing the
--   listings.
-- - Llm: LlmQueue (backend/src/llm/llm-queue.ts). The calls of the class and what its environment
--   does (a task that ends, a timer that fires) are the steps of a relation.
-- - Json: the values of JSON and `undefined`, as dataJson holds them.
-- - Formula: backend/src/records/compute.util.ts. Formula/Double is the arithmetic of doubles, a
--   parameter; Formula/Tokens has `tokenize`, Formula/Parser the class Parser and `eval_formula`,
--   Formula/Rules evalRules and formatAutoNumber. The fuel of the tokenizer is the number of the
--   characters, that of the parser one more than the number of the tokens: a step of the tokenizer
--   takes a character, and a nested or repeated operand leaves fewer tokens than it was given
--   (Formula/Parser/Total).
-- - Records: Records/Input has backend/src/records/record-input.util.ts; the others are parts of
--   backend/src/records/records.service.ts: Records/Computed has computeFields and nextSequence,
--   Records/Service create, update, duplicate and bulkDistribute, Records/Trash remove,
--   bulkRemove, restoreTrash and purgeTrash, Records/Csv the cells of the export,
--   Records/Csv/Reader exportCsv and parseCsv of frontend/src/lib/csv.ts, Records/Import
--   importRows, findAll, countReferencing and existingIds. An update is what it reads
--   (`update_read`) and its transaction (`update_tx`), which may run on a later state.
--   Records/Access is backend/src/records/records.controller.ts: what each call asks of Permission
--   before the service, and the entry it leaves in the audit log; its paged listing, the export
--   and the list of the trash are left out.
-- - Definition: backend/src/common/app-definition.util.ts. Definition/Codes has slugCode,
--   Definition/Sanitize the process and the actions; the definition that a language model wrote is
--   a JSON value. The fuel of slugCode is two more than the number of used codes, since each turn
--   but the first tries a code of its own.
-- - Upload: backend/src/common/file-validation.util.ts. Upload/Signature has the tests on bytes,
--   Upload validateUpload with its checks in their order.
-- - Notices: Notices has backend/src/notifications/notifications.service.ts, Notices/Reminders
--   reminder.service.ts beside it; the clock and the conversions of values are parameters.
-- - Auth: Auth/Accounts has the writes of backend/src/users/users.service.ts, Auth/Login
--   backend/src/auth/auth.service.ts; bcrypt, the trimming of text and the clock are parameters.
-- - Tests: runs on concrete data, and each result applied to an input.
--
-- A call of a service is one step on one state of the tables: what other requests write between
-- two queries of one call is not modelled, and neither are HTTP, authentication guards, the calls
-- of language models, files on disk and the pages of the frontend; dashboards, templates,
-- settings, backup and the public forms are left for later.
pub mod Base
pub mod Schema
pub mod Json
pub mod Formula
pub mod Records
pub mod Definition
pub mod Upload
pub mod Notices
pub mod Org
pub mod Permission
pub mod Groups
pub mod Llm
pub mod Auth
mod Tests
