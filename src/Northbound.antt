-- ===== src/Northbound.antt =====
-- xedge/northbound: delivery of samples to brokers and servers.
pub mod Dispatcher
