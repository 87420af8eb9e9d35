-- ===== src/Fees.antt =====
-- The sovtokenfees plugin.
pub mod Authorizer
pub mod SetFees
pub mod Messages
pub mod Read
pub mod AuthRule
pub mod ThreePhase
pub mod Domain
pub mod TransferFee
pub mod Catchup
