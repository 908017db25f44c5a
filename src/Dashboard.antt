-- ===== src/Dashboard.antt =====
-- example: the dashboard, a program over the library. collect.go reads everything for one page, and
-- render.go works out its figures.
pub mod Render
pub mod Panels
pub mod Build
pub mod Rows
pub mod Sort
pub mod Samples
pub mod Cards
pub mod Task
pub mod Collect
pub mod Readers
pub mod Zero
pub mod Schedule
pub mod Main
