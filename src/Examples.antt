-- ===== src/Examples.antt =====
-- The theorems on small devices and queues, and runs of the operations.
mod Device
mod Queue
mod Agent
mod Channel
mod Ftl
mod Zones
mod Requests
mod Controller
mod Keys
