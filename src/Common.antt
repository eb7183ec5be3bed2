-- ===== src/Common.antt =====
-- components/Common: the data structures that the rest of the stack is built on.
pub mod BitArray
pub mod NumMgr
pub mod Gpha
pub mod RinaName
pub mod Netbuf
mod Tests
