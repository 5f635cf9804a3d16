-- ===== src/Library.antt =====
-- libnetAndLibpcap网络库: the programs over libnet and libpcap. What the libraries do is not theirs:
-- a call of the library is a call like that of the system.
pub mod Sender
pub mod Capture
pub mod Next
