-- ===== src/Llm.antt =====
-- backend/src/llm: the access to the language model.
pub mod Queue
