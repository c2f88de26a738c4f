-- ===== src/Write.antt =====
-- src/write/header.rs and src/write/model.rs: the writer of the header. A function that pushes
-- bytes to a buffer gives the bytes that it pushes.
pub mod Bitmap
pub mod Coders
pub mod Streams
pub mod Files
pub mod Solid
