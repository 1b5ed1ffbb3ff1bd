-- ===== src/Database.antt =====
-- src/bin/api/postgres/: the tables of the database, the statements over them, and how rows become
-- values of the program. PostgreSQL itself, which runs the statements, and the reading of its
-- binary columns are outside of the program: a table is a map by its primary key.
pub mod Times
pub mod Conns
pub mod Rows
pub mod Subs
pub mod Keys
pub mod Reload
pub mod Agreement
pub mod Refresh
pub mod NodeTables
