-- ===== src/Tests.antt =====
-- The theorems at concrete inputs, and runs of the modelled code.
mod PollTables
mod Queues
mod Records
mod Relays
mod Messages
mod Lines
mod Cleanups
mod Admissions
mod Threads
mod Requests
mod UrlCaches
mod Sockets
mod Events
mod Serving
mod Meals
mod Turns
mod HashCaches
