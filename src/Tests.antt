-- ===== src/Tests.antt =====
-- Runs of the models, and the theorems at concrete inputs.
mod Field
mod Sharing
mod Toy
mod Square
mod Committee
mod Client
mod Requests
mod Handler
mod Members
mod Sealing
mod Server
