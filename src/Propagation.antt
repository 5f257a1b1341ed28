-- ===== src/Propagation.antt =====
-- mocktracer/src/propagation.cpp: span contexts in binary streams and in text maps.
pub mod Binary
pub mod Wire
pub mod Reading
pub mod Failures
pub mod TextMap
