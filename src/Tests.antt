-- ===== src/Tests.antt =====
-- Tests: the theorems at concrete threads, channels and logs.
mod Setup
mod LogFile
mod Programs
mod Ids
mod Logs
mod Receives
mod Threads
mod Standard
mod Selects
mod Sets
mod Ipcs
mod Routers
mod Systems
mod Replays
