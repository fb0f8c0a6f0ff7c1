-- ===== src/Sparkplug.antt =====
-- xedge/northbound/sparkplug: the wire format of payloads.
pub mod Wire
pub mod Session
