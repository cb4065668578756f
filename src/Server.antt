-- ===== src/Server.antt =====
-- The CoAP server of main/CoapServer.cpp and main/include/CoapServer.h.
pub mod Bringup
pub mod Definition
pub mod Forward
pub mod Read
pub mod Register
pub mod Routes
pub mod Polling
pub mod Serving
pub mod Startup
