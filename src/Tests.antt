-- ===== src/Tests.antt =====
-- Examples: the theorems at concrete positions.
mod Fixtures
mod Boards
mod Arrivals
mod Games
mod Servers
mod Clients
