-- ===== src/Exception.antt =====
-- hologine/core/exception.cpp: exception codes, their generator, and the handler of a thread.
pub mod Codes
pub mod Generator
pub mod Handler
