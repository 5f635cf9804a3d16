-- ===== src/Lib.antt =====
-- UnixNet: small network programs in C. This development models the servers, the helpers that they
-- share, and the programs that build and read packets.
--
-- The parts and their files:
--   Sys: the system as the programs see it. A program is a function of the answers that the system
--     will give and of the log of its calls; a run ends with a value, in `exit`, waiting in a call
--     (no answer is left), or in behaviour that C leaves undefined. Sys/Ensures: what holds of a run
--     that comes to its end; Sys/Preserves: invariants of the log, whichever way a run ends;
--     Sys/Alike: two programs that make the same calls; Sys/Trace: what a log shows to the outside.
--   Wrap: WebServer/Epoll_Web/wrap.c, the wrappers `Accept`, `Bind`, `Connect`, `Listen`, `Socket`,
--     `Read`, `Write`, `Close`, the loops `Readn` and `Writen`, and `tcp4bind`. The files of that
--     name in PollDemo, Libevent and EPollDemo are copies.
--   Readline: `my_read` and `Readline` of the same file; the static buffer is an argument and a part
--     of the result.
--   CString: the functions of the C library that the programs call, on byte strings.
--   Pub: WebServer/Epoll_Web/pub.c, the type of a file name, `get_line`, `strdecode`, `strencode`.
--   EpollWeb: WebServer/Epoll_Web/webServer.c. Response is `send_header` and `SendData`, Server is
--     `main`, Whole is a request from its first byte to the closed connection, Session a whole run.
--     It reads requests with Readline and answers with Pub's types; Files is its file system.
--   EventWeb: WebServer/Libevent_Web/webServer.c, `read_cb`, `processingRequests`, `sendHeader` and
--     `sendFile`; Server is `listener_cb` and `main`, Session a whole run.
--   EventTest: WebServer/test/event_wb.c, `copy_header`, `copy_file`, `send_dir`, `http_request`,
--     `read_cb` and `bevent_cb`, with the request scanner of EventWeb; Server is `listen_cb` and
--     `main`, Whole is a request from its bytes to the file.
--   Poll: PollDemo/pollDemo.c; the state is the client table, a step is one return of `poll`.
--     Served/Session is a whole run.
--   Select: TcpServerDemo/selectFun.c; the state is the watched set and its bound, a step is one
--     return of `select`.
--     Select/Teacher is TcpServerDemo/selectFunTeacher.c, with what it prints. Session is a whole run of
--     either.
--   EpollDemo: Level is EPollDemo/epoll水平触发/demo02.c, Edge is EPollDemo/epoll边缘触发/demo03.c and
--     Echo is WebServer/Epoll_Web/webdemo01.c; the loops that they share are in EpollDemo itself.
--     Session is a whole run of Echo. Pipe is EPollDemo/demo01/test.c.
--   Udp: UdpServer/server.c and client.c. LocalSocket: the two programs of LocalSocket. Exchange in
--     either is a client and its server together.
--   BufferEcho: Hello is Libevent/helloworld-change.c, Welcome is Libevent/myWwriteDemo.c; a run is
--     the list of the callbacks that the dispatcher makes. Methods is Libevent/demo01.c.
--   Cgi: CGI协议/CGI的Pull方式/Syn/post-cgi.c, which is also in ASyn; Query is
--     CGI协议/CGI的Get方式/CGI异步方式/test_cgi.c.
--   EventTable: Libevent/libeventServer.c; the state is `FdArr`, a step is one callback.
--     Session is a whole run, Session/Late one with a client that comes when the array is full.
--   Process: TcpServerDemo/process_tcp_server.c, the SIGCHLD handler, the child, the parent
--     loop and `main`.
--   MessageLog: WebServer/test/log.c; the state is the static variables and what was written.
--     Clock is its stop watch, Demo is WebServer/test/log_demo.c.
--   ByteOrder: the programs in BigOrLittle-Endian大端小端判断 and 字节序转换, on a host of either kind.
--   Raw: the programs in SockRaw原始套接字: Checksum and Udp are udpMessage.c, Arp is arpDeceit.c and
--     getMacAddr.c, Analyze is analyzeMac.c; Send is `SendTo` and `main` of the first three;
--     Create is createDemo.c.
--   Library: libnetAndLibpcap网络库; Sender is LibNet/libNetUdp.c, Capture is pcapLoop.c and pcapRules.c, Next
--     is pcapNext.c.
--   Common: shared names, tests on numbers, lists. Tests: the theorems at concrete inputs.
--
-- Bounds and fuel: the loop that drains a client runs on fuel, one more than the bytes in the buffer
-- and the answers that are left, and each round takes one of these. Digits are printed on fuel above
-- the number. All other loops are structural. An `int` that may be negative is its bit pattern.
--
-- Not modelled: what becomes of bytes once a call has been made with them, such as how many a `send`
-- took or whether libevent flushed them; what is printed on the terminal, except in Udp, LocalSocket, Select/Teacher,
-- BufferEcho, Cgi, Raw/Send, Raw/Create, Library and EpollDemo/Level and where printing reads past
-- the end of an array; `epoll_create` and the set-up of signal masks; the samples of libevent. The
-- system, the file system, the clock, libevent, libnet and libpcap are not code of this
-- repository: their answers are arguments, of any value.
pub mod Common
pub mod Sys
pub mod Wrap
pub mod Readline
pub mod CString
pub mod Pub
pub mod ByteOrder
pub mod Raw
pub mod Files
pub mod EpollWeb
pub mod Poll
pub mod EventTable
pub mod EventWeb
pub mod MessageLog
pub mod Process
pub mod Tests
pub mod EventTest
pub mod Select
pub mod EpollDemo
pub mod Udp
pub mod LocalSocket
pub mod BufferEcho
pub mod Cgi
pub mod Library
