-- ===== src/Tests.antt =====
-- Concrete inputs on which the theorems are applied, and the host that they run on.
mod World
mod Parts
mod Files
mod Managers
mod Threads
mod Ending
mod Transfers
mod Disk
mod Database
mod Web
mod Controls
mod Completion
