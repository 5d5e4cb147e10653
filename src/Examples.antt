-- ===== src/Examples.antt =====
-- Runs on concrete inputs, and the theorems applied to them.
mod Types
mod Network
mod Client
mod Simulator
mod Requests
mod Properties
mod Application
