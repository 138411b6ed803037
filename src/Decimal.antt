-- ===== src/Decimal.antt =====
-- Python's `decimal.Decimal` as far as the coordinator uses it: values and comparison (`Order`), the
-- text that the constructor reads (`Parse`, with the digits of `Ascii`), rounding to a number of places
-- (`Rounding`), and arithmetic under the default context (`Context`, `Minus`).
pub mod Rounding
pub mod Order
pub mod Ascii
pub mod Parse
pub mod Context
pub mod Minus
