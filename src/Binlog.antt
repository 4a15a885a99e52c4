-- ===== src/Binlog.antt =====
-- BinlogWriter of binlog.h and binlog.cpp, in child modules: the bitmap of sequence numbers, the
-- state and its file operations, the receipt of blocks, the periodic pump, and the rotation at a
-- reboot of the flight controller, each with what is proved of it.
pub mod Bitmap
pub mod Writer
pub mod Receive
pub mod Pump
pub mod Reboot
pub mod Invariant
pub mod History
mod Tests
