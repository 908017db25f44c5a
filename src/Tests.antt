-- ===== src/Tests.antt =====
-- The theorems at concrete inputs, and runs of the definitions.
mod World
mod Ranking
mod Counters
mod Texts
mod Figures
mod Containers
mod Discovery
mod Outside
mod Systems
mod Collecting
