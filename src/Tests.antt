-- ===== src/Tests.antt =====
-- Runs of the definitions, and the theorems at concrete inputs.
mod Validation
mod Examples
mod Magics
mod Dispatch
mod Requests
mod Startup
