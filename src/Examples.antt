-- ===== src/Examples.antt =====
-- Concrete inputs: tests of the definitions, and the theorems at inputs that meet their hypotheses.
mod Containers
mod Plans
mod Updates
mod Checks
mod Runs
mod Hosts
mod Networks
mod Signatures
mod Creates
mod HostRuns
mod Guards
mod Requests
mod Registries
mod Settings
mod Logins
