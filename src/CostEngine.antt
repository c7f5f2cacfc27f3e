-- ===== src/CostEngine.antt =====
-- plugin/costengine.cpp and .h: the estimated cost of a use of tokens or units at a catalogued price.
pub mod Values
pub mod Decimal
pub mod Pricing
pub mod Tokens
pub mod Charges
pub mod Estimate
pub mod Steps
pub mod Missing
pub mod Results
pub mod Accepted
pub mod Amounts
pub mod Refines
pub mod Formula
pub mod Totals
pub mod Allowance
mod Examples
