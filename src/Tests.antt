-- ===== src/Tests.antt =====
-- Runs of the theorems on small concrete inputs, by part of the program.
mod Gateway
mod Inputs
mod Client
mod Stores
mod Users
mod Access
mod Fields
mod Clients
mod Sorting
mod Widgets
mod Routing
mod Navigation
mod Network
