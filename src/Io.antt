-- ===== src/Io.antt =====
-- hologine/core/io: streams, and the binary reader and writer over them.
pub mod Stream
pub mod MemoryStream
pub mod Binary
