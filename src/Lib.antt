-- ===== src/Lib.antt =====
-- tlsuv: HTTP, WebSockets and TLS streams on top of libuv.
--
-- The program. A connection source (src/tcp_src.c) resolves a name and connects. Links are chained
-- on top of the connection: the TLS link (src/tls_link.c), which drives a TLS engine, and above it
-- the link of a client. There are three clients: the HTTP client (src/http.c, with the requests and
-- the response parser's callbacks in src/http_req.c and decompression in src/compression.c), the
-- WebSocket client (src/websocket.c), which sends an HTTP request to upgrade, and the plain TLS
-- stream (src/tlsuv.c). An engine stands on OpenSSL (src/openssl/engine.c) or on mbedTLS
-- (src/mbedtls/engine.c), which keeps the bytes that wait in queues (src/bio.c); keys
-- (src/openssl/keys.c) may be on a PKCS#11 token (src/p11.c). For base64url there is a decoder
-- (src/base64.c). Errors travel up the links as negative sizes, and each client turns them into calls
-- of the user's callbacks.
--
-- The files, with the code that each is about:
--   Base                   lists, bytes, bits, text and decimal numbers, shared by all
--   Base64                 src/base64.c: tlsuv_base64url_decode
--   Bio                    src/bio.c: tlsuv_BIO_put and tlsuv_BIO_read
--   Url                    src/http.c: tlsuv_parse_url
--   Compression            src/compression.c: um_inflate and what is around it
--   Http/Headers           src/http_req.c: header lists
--   Http/UrlEncode         src/http_req.c: write_url_encoded
--   Http/Types             include/tlsuv/http.h: requests, responses, and the calls out of a client
--   Http/Request           src/http.c: headers and bodies of a request; src/http_req.c: the head as
--                          it is written (Write) and as it is meant (Head), and the parser's
--                          callbacks (Response)
--   Http/Client            src/http.c: the client's state; its configuration (Config), connecting
--                          (Connect), sending (Send, Process), reading (Read), cancelling (Cancel),
--                          and all of these in any order (Life)
--   Websocket              src/websocket.c: connecting and closing; frames (Frame); what the links
--                          below deliver (Link)
--   TlsLink                src/tls_link.c: reading, writing and the handshake
--   Openssl                src/openssl/engine.c: the engine under the TLS link (Reads and Writes put
--                          the two together), the protocol list (Alpn), the CA bundle (Chains), the
--                          client's own key and certificate (Identity), the certificates that are
--                          trusted (Trust); src/openssl/keys.c (Keys)
--   Mbedtls                src/mbedtls/engine.c: the engine under the TLS link (Streams), the check of
--                          a server (Verify), PKCS#7 messages (Pkcs7), PEM text (Pem), requests for
--                          certificates (Csr), signatures (Signatures), the client's own key and
--                          certificate (Identity); src/mbedtls/keys.c (Keys)
--   P11                    src/p11.c: the token's functions, loading and generating keys, certificates
--   TcpSrc                 src/tcp_src.c: the callbacks of one connection attempt
--   Stream                 src/tlsuv.c and src/tls_engine.c
--   Tests                  runs on small inputs, and instances of the theorems
--
-- How the state corresponds. A struct is a record with the source's field names, a NULL pointer is
-- `none` or a flag that is false, a list or queue macro is a list. A handler returns the new state
-- and the calls that it makes (of the user, of the link below, of libuv), in order; a call into
-- another part of the program is a call of its model. The user's callbacks do not call back into
-- the object that calls them. Where C would use a NULL or released pointer, or go past the end of a
-- buffer, a handler ends in a value that says so, and does not go on. Numbers of a fixed width are
-- natural numbers with the wrap-around written out; `char` may be signed or not where it
-- matters, but in URL encoding it is signed.
--
-- What is outside. libuv, llhttp, zlib, `rand`, OpenSSL, mbedTLS and the PKCS#11 driver are
-- parameters: their answers are arguments, a run of llhttp is the list of the callbacks that it
-- makes, zlib is a function on what it was given so far, and an `SSL` object is a record of
-- functions on a state of its own. A TLS engine is such a record for the TLS link, which the
-- OpenSSL and the mbedTLS engine fill; the driver is one too. A function of mbedTLS is a program
-- that may call the engine's two callbacks. Where a theorem needs what PKCS#11, OpenSSL or mbedTLS
-- document of these functions, it takes a record of laws as a hypothesis.
--
-- Fuel. The loops of Bio, Base64 and Compression, and the reading loop of the TLS link, run on fuel.
-- The loop of Bio takes a message off or fills the caller's buffer in each round, that of base64
-- takes digits off; their own definitions give enough. For zlib and for a TLS engine it depends on
-- the progress that these make, which is a hypothesis of the theorems on termination. The loops of
-- the two engines run on the number of bytes to write, or of free bytes, since each round of them
-- writes or reads at least one byte.
--
-- A list of certificates, in a PKCS#7 message or in PEM text, is read with one round for each byte
-- and one more; each certificate takes at least one byte.
--
-- A request's number stands for its address. The numbers are given in the order in which requests
-- are made, and a run of the client names a request by its number only while the client has it.
--
-- Not modelled: setting up and releasing the contexts of OpenSSL and mbedTLS, PKCS#7 messages and
-- requests for certificates on OpenSSL, which are calls of that library, and
-- the loading of a token's key for mbedTLS (src/mbedtls/mbed_p11.c), which nothing calls; the debug
-- output, the vendored queue macros (include/tlsuv/queue.h) and uv_link_t (deps), the samples and
-- the tests. The release of memory is modelled only where something is used after it.
mod Base
pub mod Base64
pub mod Bio
pub mod Url
pub mod Compression
pub mod Http
pub mod Websocket
pub mod TcpSrc
pub mod TlsLink
pub mod Stream
pub mod Openssl
pub mod P11
pub mod Mbedtls
mod Tests
