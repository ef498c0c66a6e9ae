-- ===== src/Testnet.antt =====
-- cmd/chain-riced/cmd/testnet_multi_node.go: the files of a testnet of several nodes.
pub mod Strings
pub mod Args
pub mod Nodes
pub mod Stakes
pub mod Ports
pub mod Peers
pub mod Collect
pub mod Machine
pub mod Init
pub mod Flags
pub mod Command
pub mod GenFiles
pub mod Disk
pub mod InPlace
pub mod Replace
pub mod Samples
mod Tests
mod CollectTests
mod InitTests
mod DiskTests
mod InPlaceTests
mod ReplaceTests
