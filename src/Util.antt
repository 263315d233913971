-- ===== src/Util.antt =====
-- src/util.c, the helpers that the program is built with (a copy of BlueZ's src/shared/util.c,
-- which Makefile.am lists among the program's own sources).
pub mod CString
pub mod Uuid
pub mod Appearance
pub mod Uid
pub mod Text
pub mod Hexdump
