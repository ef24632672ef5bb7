-- ===== src/Tests.antt =====
-- Runs of the components on concrete inputs.
mod Machine
mod Sockets
mod Redirects
mod Wires
mod Decoder
mod Parser
mod Policy
mod Writing
