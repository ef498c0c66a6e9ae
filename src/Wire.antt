-- ===== src/Wire.antt =====
-- x/chainrice/types/*.pb.go: the protobuf encoding of the module's messages.
pub mod Varint
pub mod Buffer
pub mod Skip
pub mod Tokens
pub mod Unmarshal
pub mod Fields
pub mod Marshal
pub mod Params
pub mod Tx
pub mod Single
pub mod Genesis
pub mod Query
pub mod Module
mod Tests
mod FieldsTests
