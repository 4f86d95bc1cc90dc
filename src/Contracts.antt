-- ===== src/Contracts.antt =====
-- internal/contracts: the shared closed sets of states, codes and result types.
pub mod Status
pub mod Execution
pub mod Codes
pub mod Hash
pub mod Decimal
