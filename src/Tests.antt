-- ===== src/Tests.antt =====
-- Runs of the models at concrete inputs, and the theorems applied to them.
mod Limiting
mod Nodes
mod Reports
mod Reloads
mod Lives
mod Cores
mod Certs
mod SelfSigned
mod Starts
mod Links
mod Parts
