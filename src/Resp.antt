-- ===== src/Resp.antt =====
-- The RESP protocol: resp/RespValue, resp/RespEncoder and resp/RespParser.
pub mod Value
pub mod Encoder
pub mod Parser
