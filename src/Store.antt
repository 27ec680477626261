-- ===== src/Store.antt =====
-- The events in the database: the keys of golpe.yaml, and what src/events.cpp and src/events.h read
-- and write.
pub mod Index
pub mod Db
pub mod Payload
pub mod Write
