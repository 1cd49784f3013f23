-- ===== src/Examples.antt =====
-- Concrete inputs: a server with one value in its map, and the theorems there.
mod Data
mod Maps
mod Singletons
mod Server
mod Threads
mod Restarts
mod Reloads
mod Pushes
mod Systems
mod Interleavings
mod Calls
mod Startup
mod Clients
mod Misses
