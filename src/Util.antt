-- ===== src/Util.antt =====
-- daemon/src/util.c: the helpers that every other part calls.
pub mod Utf8
pub mod Base64
