-- ===== src/Store.antt =====
-- services/connector-registry/app/models.py and packages/favl-outbox: the rows of the registry's
-- database. A UUID is its text, a timestamp a number of microseconds.
pub mod Rows
pub mod Tables
pub mod Laws
