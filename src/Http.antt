-- ===== src/Http.antt =====
-- epoll-http-server/src: the HTTP half, that is HttpRequest, HttpContext and HttpResponse.
pub mod Number
pub mod Request
pub mod Response
pub mod Context
