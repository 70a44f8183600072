-- ===== src/Examples.antt =====
-- The theorems at concrete inputs: a small world in place of the packages that the program calls.
mod World
mod Tasmota
mod Database
mod Api
mod Mqtt
mod TablesInMemory
mod Queries
mod Steps
mod Pipeline
mod Server
mod Fields
mod Pools
mod Alarm
mod Json
