-- ===== src/Socks5.antt =====
-- The SOCKS5 messages (pkg/socks5): the parsers of the two requests and the two reply encoders.
-- `Codes` has the constants, `Reader` the way the parsers read, `Method` and `Request` a parser
-- each, with its proofs below it, `Reply` the encoders.
pub mod Codes
pub mod Reader
pub mod Method
pub mod Request
pub mod Reply
