-- ===== src/Tests.antt =====
-- The theorems at concrete inputs that exercise the code, and runs of the code.
mod Relays
mod Routes
mod Bytes
mod States
mod Systems
mod Handled
mod Heard
mod Wires
mod Queues
mod Hellos
mod Networks
mod Announcements
mod Heights
mod Starts
