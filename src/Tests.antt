-- ===== src/Tests.antt =====
-- Runs of the models on small inputs, and each theorem at an input where its hypotheses hold.
mod Codec
mod HttpParts
mod HttpClient
mod ClientLife
mod Links
mod Openssl
mod Tokens
mod Mbedtls
mod Certificates
