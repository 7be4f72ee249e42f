-- ===== src/Tests.antt =====
-- Runs of the code on small inputs, by the part of the program that they are about.
mod Data
mod Aggregates
mod Routers
mod Services
mod Coordinators
mod Messages
mod Clients
mod Transports
mod Tools
mod Scenarios
