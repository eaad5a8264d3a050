-- ===== src/Lib.antt =====
-- A model of the epoll HTTP server of epoll-http-server/, and of the types and pages of the database
-- in db-engineering/, with proofs.
--
-- The server is a set of reactors. A listening socket hands each new connection to the loop of one
-- of some threads, in turn (EventLoopThreadPool); the loop's thread owns the connection from then
-- on. A loop waits for events on its epoll, runs the callback of each channel that is ready
-- (Channel), then the functors that other threads or its own handlers queued (EventLoop). The
-- callbacks of a connection read bytes, parse them as a request (HttpRequest), have the user's
-- callback fill in a response (HttpResponse), and write it, at once or when the socket is writable
-- again (HttpServer).
--
-- Files, and the sources that they model, under epoll-http-server/src/:
--   Http/Request    HttpRequest.h, HttpRequest.cpp: `parse` is a loop of rounds, one by state;
--                   Rounds, Shrinking, Looping and Chunks: input in several reads; Render: requests
--                   that a client writes; Shape, Invariant, Limits and Fields: what an object holds
--   Http/Context    HttpContext.h, which passes on to HttpRequest
--   Http/Response   HttpResponse.h, HttpResponse.cpp; Reading: a client that reads responses
--   Http/Number     `strtol` and the decimal output that the two use
--   Reactor/Epoll   Epoll.h, Epoll.cpp: the calls of epoll_ctl, and what they leave registered;
--                   Waiting: the constructor, the destructor and `wait`
--   Reactor/Channel Channel.h, Channel.cpp, and EventLoop::updateChannel
--   Reactor/EventLoop EventLoop.h, EventLoop.cpp: its queue; Interleaving: its loop as a relation
--                   between states, among threads that queue functors;
--                   Generations: turns, with functors that queue others; Lifetime: its constructor
--                   and destructor
--   Reactor/ThreadPool EventLoopThreadPool.h, EventLoopThreadPool.cpp
--   Reactor/LoopThread EventLoopThread.h, EventLoopThread.cpp: starting and stopping a loop's thread
--   Server/Connection HttpServer.h, HttpServer.cpp: the handlers of one connection; Closing,
--                   Watching, Registering, Writing, Output, Partial, Answer, Rejecting and Exchange:
--                   what they do;
--                   Preserving and Sharing: what no handler changes; Alone: that nothing else
--                   of the server matters to a handler; Serving: the events of an exchange
--   Server/Accepting HttpServer::start, and HttpServer::onNewConnection in the acceptor's thread
--   Server/Registry the map `connections_` of HttpServer, with all on one loop
--   Server/Loop     HttpServer with no threads: its constructor, and whole turns of the loop over
--                   all connections, with the objects that are alive; Sound: what holds between two
--                   items of a turn; Handling, Admitting and Ending: that each kind of item keeps
--                   it; Batch: what the kernel can bring; Ready, Step, Turn and Safety: turns and
--                   runs;
--                   Alone, Callbacks and Whole: what a connection sees of them; Replies: what its
--                   client gets;
--                   Destroying: its destructor
--   Server/Threads  the connections of HttpServer on the loops of several threads, as a relation
--                   between states; Places, Moves and Safety: who has a descriptor and its object;
--                   Ending: that a removal comes to its end; Objects: the same with what the objects
--                   hold; Alone, Replies and Closing: what becomes of one of them
--   Server/Hello    ../examples/main_stage4.cpp: the server with its callback; Pages: what a client
--                   reads of it
--   Stages          ../examples/main_stage1.cpp (Blocking), main_stage2.cpp (Echo) and
--                   main_stage3.cpp (SubReactors; Ownership: who has a descriptor; Answering:
--                   what is written; Starting: its start): the programs that led to the server
--   Net/Socket      Socket.h, Socket.cpp: who closes which descriptor; Calls: what is asked of the
--                   system
--   Net/Acceptor    Acceptor.h, Acceptor.cpp
--   Db/Types, Db/Page db-engineering/src/: type.h, type.cc, page.h and config.h
--   Prelude         numbers, lists, bytes and maps
--   Tests           runs on concrete inputs
--
-- Conventions: a method that changes its object returns the new one. Bytes are numbers, and a text
-- is a list of them; `npos` and a missing key are `none`. A system call is not modelled: a handler
-- takes what it answers as an argument. Sizes are natural numbers: the parser holds at most 64 KB
-- and one read brings at most 4096 bytes, so that no `size_t` wraps; Content-Length is cut to the
-- range of `long` as `strtol` does it. The header map is a list with distinct keys; where
-- `toMessage` iterates over it, the order is an argument.
--
-- Fuel: the loop of `parse` has the length of its buffer and one, of which each round that goes on
-- takes a line off; the loop of `onWrite` has the number of bytes to write, of which each round that
-- goes on writes one at least; `put_digits` has the number that it writes.
--
-- Not modelled: the threads of the pool, which stand as the loops that they hand over; what
-- `epoll_wait` answers, which is an argument; the parts of db-engineering/ that are declarations
-- without bodies; what the example programs print.
pub mod Prelude
pub mod Http
pub mod Reactor
pub mod Net
pub mod Server
pub mod Db
pub mod Stages
mod Tests
