-- ===== src/Net.antt =====
-- epoll-http-server: the sockets and the acceptor.
pub mod Socket
pub mod Acceptor
