-- ===== src/Raw.antt =====
-- SockRaw原始套接字: the frames that the raw socket programs build and take apart. A frame is
-- the list of its bytes.
pub mod Frame
pub mod Checksum
pub mod Arp
pub mod Udp
pub mod Analyze
pub mod Send
pub mod Create
