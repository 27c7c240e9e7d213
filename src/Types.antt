-- ===== src/Types.antt =====
-- The data of the program: messages and stored records of packages/steak/src/hub.rs, the staking
-- types of contracts/hub/src/types, and what the contracts build and read of cosmwasm_std.
mod Hub
mod Interface
mod Staking
mod Coins
mod Query
unfoldable pub use Hub.*
unfoldable pub use Interface.*
unfoldable pub use Staking.*
unfoldable pub use Query.*
unfoldable pub use Coins.*
