-- ===== src/Http.antt =====
-- HTTP messages and the incremental parsers: include/net/http_message.h, include/net/http_parser.h
-- and src/net/http_parser.cpp.
pub mod Text
pub mod Number
pub mod Message
pub mod Headers
pub mod Incremental
pub mod Request
pub mod Response
