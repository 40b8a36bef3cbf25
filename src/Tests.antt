-- ===== src/Tests.antt =====
-- Runs of the models at concrete inputs, and the theorems at inputs that meet their conditions.
mod Messaging
mod Authentication
mod Confirmation
mod Sessions
mod Storage
mod Values
mod Scheduling
mod Tables
mod Pools
mod Tenancies
