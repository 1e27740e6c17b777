-- ===== src/Examples.antt =====
-- Concrete libraries and inputs for the theorems, and runs of the model.
mod Crates
mod Services
mod Hosts
mod Openers
mod Sessions
mod Databases
mod Repositories
mod Processes
mod Logs
mod Startups
