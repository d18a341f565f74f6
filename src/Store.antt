-- ===== src/Store.antt =====
-- internal/store: the tables that the daemon's core reads and writes, as the SQL statements see them.
pub mod Incidents
pub mod Issues
