-- ===== src/Http.antt =====
-- The HTTP client of src/http.c, src/http_req.c and include/tlsuv/http.h.
pub mod Headers
pub mod UrlEncode
pub mod Types
pub mod Request
pub mod Client
