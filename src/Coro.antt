-- ===== src/Coro.antt =====
-- The coroutine I/O layer (src/coro, include/coro): buffered reads and stream copies.
-- A coroutine that awaits I/O is a function of the events that the kernel will deliver to it.
pub mod PendingOps
pub mod ByteReader
pub mod BufferedStream
pub mod AsyncStream
pub mod Parsing
pub mod Agreement
pub mod Ensures
