-- ===== src/Server.antt =====
-- epoll-http-server/src/HttpServer.h and HttpServer.cpp.
pub mod Connection
pub mod Accepting
pub mod Hello
pub mod Registry
pub mod Loop
pub mod Threads
