-- ===== src/Tests.antt =====
-- Runs of the definitions on concrete inputs, and the theorems applied at such inputs.
mod Tape
mod Receiving
mod Framing
mod Messages
mod Configuring
mod Connecting
mod Serving
mod Accepting
mod Polling
mod Threads
mod Constructing
