-- ===== src/Examples.antt =====
-- Runs of the definitions on concrete inputs, and the theorems at inputs that meet their hypotheses.
mod Clients
mod Library
mod Statements
mod Slots
mod Pipelines
mod Queues
mod Pools
mod Certificates
mod Reads
mod Ports
mod Commands
mod Sasl
mod Dialogues
mod Sends
mod Layouts
mod Counters
