-- ===== src/Db.antt =====
-- db/models.py: the rows that the services read and write, and the database as lists of rows.
pub mod Rows
pub mod Plans
pub mod World
pub mod Store
pub mod Queries
