-- ===== src/Examples.antt =====
-- Concrete runs: the theorems at inputs where their hypotheses hold.
mod Addresses
mod Clients
mod Identity
mod Texts
mod Reviews
mod Chains
mod Lifecycles
mod Tokens
mod Metrics
mod Probes
mod Records
mod Starts
mod Flags
mod Limits
mod Issuing
mod Maps
