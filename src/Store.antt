-- ===== src/Store.antt =====
-- The tables of api/storage.py on which incidents and device commands live, and the operations of
-- `GuardianStore` on incidents. A table is the list of its rows; a transaction returns the new tables
-- or raises and leaves the old ones. uuid4 and the clock are arguments.
pub mod Tables
pub mod Where
pub mod Incidents
pub mod Lifecycle
pub mod Commands
pub mod Create
pub mod Duplicates
pub mod Run
pub mod Isolation
mod Tests
