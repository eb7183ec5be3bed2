-- ===== src/Common/Tests.antt =====
-- The theorems about components/Common at concrete inputs, and runs of its functions.
mod Numbers
mod Addresses
mod Names
mod Netbufs
