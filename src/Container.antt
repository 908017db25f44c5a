-- ===== src/Container.antt =====
-- container.go, container_discover.go and container_layer.go: containers, found by their control
-- groups.
pub mod Types
pub mod Match
pub mod Blockio
pub mod Netdev
pub mod Rates
pub mod Stats
pub mod Patterns
pub mod Mounts
pub mod Host
pub mod Layer
pub mod Discover
pub mod Runtime
pub mod Reader
pub mod Collect
