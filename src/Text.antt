-- ===== src/Text.antt =====
-- hologine/core/text: UTF-8 sequences, strings, and the iterators over them.
pub mod Format
pub mod String
pub mod StringBuilder
pub mod StringIterator
pub mod Utf8
