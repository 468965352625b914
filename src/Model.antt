-- ===== src/Model.antt =====
-- The data that the services share: the error registry, the enums and rows of the database, and
-- the entities of internal/entities.
pub mod Errors
pub mod Rows
