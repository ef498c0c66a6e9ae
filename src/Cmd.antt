-- ===== src/Cmd.antt =====
-- cmd/chain-riced/cmd: the commands that build the application.
pub mod Export
pub mod Root
mod Tests
mod RootTests
