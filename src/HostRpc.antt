-- ===== src/HostRpc.antt =====
-- The bridge to the host (internal/hostrpc): envelopes and the bounded HTTP call.
pub mod Envelope
pub mod Stream
pub mod Client
