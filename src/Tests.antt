-- ===== src/Tests.antt =====
-- The theorems at concrete inputs, one module for each part.
pub mod Buffer
pub mod Mail
pub mod Rules
pub mod Fetch
pub mod Strb
pub mod Io
pub mod Replace
pub mod Pop3
pub mod Imap
pub mod Nntp
pub mod Netrc
