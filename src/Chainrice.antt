-- ===== src/Chainrice.antt =====
-- x/chainrice: the chain's own module, its types, its keeper and servers, and its `AppModule`.
pub mod Types
pub mod Keeper
pub mod AppModule
pub mod Authority
pub mod Genesis
pub mod Gateway
pub mod Tests
mod GatewayTests
