-- ===== src/Examples.antt =====
-- Concrete runs of the development's theorems, one file per program part.
mod Stun
mod Network
mod Relay
mod Startup
mod Client
mod Splice
mod Program
mod Crowd
mod Device
mod Launch
mod Dump
