-- ===== src/EpollWeb.antt =====
-- WebServer/Epoll_Web/webServer.c: a web server on epoll.
pub mod Response
pub mod Server
pub mod Sent
pub mod Regular
pub mod Listing
pub mod Drain
pub mod Request
pub mod Reads
pub mod Whole
pub mod Own
pub mod Answered
pub mod Session
