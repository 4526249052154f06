-- ===== src/Log.antt =====
-- The logger, src/log: the buffer in which a line is put together, and the queue that takes lines to
-- the thread that writes them.
pub mod Buffer
pub mod Queue
