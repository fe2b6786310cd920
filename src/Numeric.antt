-- ===== src/Numeric.antt =====
-- src/Base.C: logarithms, alignment, hexadecimal digits and byte order.
pub mod Power
pub mod Align
pub mod HashCode
