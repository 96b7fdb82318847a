-- ===== src/Tmdb.antt =====
-- The hash database, tmdb/src/tmdb.h and tmdb/src/tmdb.cpp, over the bytes of its two files.
pub mod Layout
pub mod Handle
pub mod Find
pub mod Store
pub mod Delete
pub mod Fetch
pub mod Open
pub mod Records
pub mod Slot
pub mod Chain
pub mod Link
pub mod Map
mod Tests
