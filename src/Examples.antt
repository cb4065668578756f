-- ===== src/Examples.antt =====
-- Runs of the definitions on small inputs, and the theorems at these inputs.
mod Clients
mod Texts
mod Maps
mod Servers
mod Bridges
mod Lights
mod Tasks
mod Starts
mod Programs
mod Writings
