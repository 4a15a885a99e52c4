-- ===== src/Database.antt =====
-- keydb.cpp and conntdb.cpp: the records of keys.tdb and connections.tdb. The trivial database itself
-- is a library that is not in this repository, and a parameter here.
pub mod Tdb
pub mod Bytes
pub mod KeyEntry
pub mod Keys
pub mod Connections
pub mod Tests
