-- ===== src/Utils.antt =====
-- src/utils.c: strings, numbers, tokens and the buffered socket.
pub mod Text
pub mod Socket
pub mod Decimal
pub mod Tokens
