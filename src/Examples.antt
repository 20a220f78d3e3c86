-- ===== src/Examples.antt =====
-- Concrete inputs: the theorems applied to them, and runs of the definitions.
mod World
mod Phones
mod Dispatch
mod Transport
mod Store
mod Hooks
mod Requests
mod Messages
mod Posts
mod Records
mod Sessions
mod Completion
