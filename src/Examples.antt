-- ===== src/Examples.antt =====
-- Tests, and the properties at concrete inputs, by component.
mod Codec
mod Session
mod Running
mod Sending
mod Clients
mod Unicast
mod Negotiating
