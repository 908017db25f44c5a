-- ===== src/Go.antt =====
-- What the program uses of Go and its standard library.
pub mod Outcome
pub mod Strings
pub mod Strconv
pub mod Paths
pub mod Os
pub mod Float
pub mod Words
pub mod Time
