-- ===== src/Session.antt =====
-- session.cpp, and what binlog.cpp and cleanup.cpp share of it: the names of session files, the
-- directory tree logs/<port2>/<date>/ as a process reads it, and the choice of a session number.
-- A name is the list of its bytes. What opendir, readdir and stat return is data of the tree.
pub mod Names
pub mod Number
