-- ===== src/Reactor.antt =====
-- epoll-http-server/src: the event loop half, that is Channel, Epoll, EventLoop and the pool of
-- loops.
pub mod Epoll
pub mod Channel
pub mod ThreadPool
pub mod LoopThread
pub mod EventLoop
