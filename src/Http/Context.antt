-- ===== src/Http/Context.antt =====
-- epoll-http-server/src/HttpContext.h: the parser of one connection, behind an interface of its own.
use cs_system_lab.Prelude.{Bool}
use cs_system_lab.Prelude.Bytes.{Bytes}
use cs_system_lab.Http.Request
use cs_system_lab.Http.Request.{HttpRequest, fresh}
use cs_system_lab.Http.Request.Chunks.{run_parse}

pub record HttpContext : Type 0 where
  pub request : HttpRequest

-- The constructor.
abbrev pub new_context : HttpContext
new_context = record { request = fresh }

unfoldable pub parse : HttpContext → Bytes → HttpContext × Bool
parse c bytes = let (r, ok) = run_parse c.request bytes in (record { request = r }, ok)

abbrev pub has_got_all : HttpContext → Bool
has_got_all c = Request.has_got_all c.request

unfoldable pub reset : HttpContext → HttpContext
reset c = record { request = Request.reset c.request }
