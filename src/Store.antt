-- ===== src/Store.antt =====
-- xedge/store: the buffers between the pipeline and the connectors.
pub mod RingBuffer
pub mod ColdStore
