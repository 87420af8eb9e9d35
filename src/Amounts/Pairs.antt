-- ===== src/Amounts/Pairs.antt =====
-- The abstract view of an address: its unspent outputs as pairs of a sequence number and an
-- amount. Each method of `UTXOAmounts` on the written form does what the view says.
mod Encode
mod Remove
mod Sum
unfoldable pub use Encode.*
pub use Remove.*
pub use Sum.*
