-- ===== src/Tests.antt =====
-- A platform to run the model on, and the theorems at concrete inputs.
mod Platform
mod Store
mod Radio
mod Link
mod Auth
mod Exchange
mod Host
mod Server
mod Manager
mod Bench
