-- ===== src/Bits.antt =====
-- Laws of `^`, `&` and `|` on numbers of any width, from the law of the lowest digit.
mod Digits
mod Xor
mod Mask
pub use Digits.{xor_step, and_step, or_step}
pub use Xor.*
pub use Mask.*
