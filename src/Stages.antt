-- ===== src/Stages.antt =====
-- epoll-http-server/examples/: the programs of the first three stages, less what they print.
pub mod Blocking
pub mod Echo
pub mod SubReactors
use cs_system_lab.Prelude.Bytes.{Bytes, codes}

-- The response that the three programs share.
unfoldable pub response : Bytes
response =
    codes
      "HTTP/1.1 200 OK\r\nContent-Type: text/plain\r\nContent-Length: 13\r\nConnection: close\r\n\r\nHello, World!\n"
