-- ===== src/Tests.antt =====
-- Runs of the model, and the theorems at concrete inputs.
mod Encoding
mod Names
mod Trees
mod Config
mod Segments
mod Fragments
mod Forwarding
mod Uris
mod Links
mod Cores
mod Endpoints
mod Packets
mod Interests
