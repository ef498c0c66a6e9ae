-- ===== src/App.antt =====
-- app: the application's own code around the SDK.
pub mod Keepers
pub mod Sweep
pub mod Export
pub mod GenesisAccount
pub mod Accounts
pub mod Modules
pub mod Ibc
pub mod Build
pub mod Client
mod Slot
pub mod Tests
mod RewardsTests
mod WholeTests
mod AccountTests
pub mod BlockedTests
mod ModulesTests
pub mod IbcTests
