-- ===== src/Client.antt =====
-- The CoAP client of main/CoapClient.cpp and main/include/CoapClient.h.
pub mod Library
pub mod State
pub mod Answer
pub mod Ends
pub mod Exchange
pub mod Requests
pub mod Holding
pub mod Steps
pub mod Cleanup
pub mod Waiting
pub mod Returning
pub mod Replies
pub mod Serving
pub mod Storing
pub mod Loading
