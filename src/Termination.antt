-- ===== src/Termination.antt =====
-- The fuel of the parsers and scanners of the stream descriptor. The children follow the parts of the
-- descriptor.
pub mod Folders
pub mod Blocks
pub mod Unpack
pub mod Streams
pub mod Files
