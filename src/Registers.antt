-- ===== src/Registers.antt =====
-- Registers as the headers under runtime/boot2/hardware/regs describe them: an offset, the bits in
-- use, the reset value, and fields between two bit positions.
pub mod Splice
pub mod Fields
pub mod PadsQspi
pub mod Ssi
pub mod M0Plus
pub mod Headers
use Prim.Native.String.{String}
use inmojomni.Base.{ℕ, ◌+◌, ◌-◌, ◌*◌, ◌/◌, ◌^◌, bit_and, bit_or, not_u, List}

-- "RW" and "RO".
pub data Access : Type 0 where
  rw_access ro_access : Access

-- `F_BITS`, `F_MSB`, `F_LSB`, `F_RESET`, `F_ACCESS` and the `F_VALUE_…` of a field F.
pub record Field : Type 0 where
  pub name : String
  pub bits : ℕ
  pub msb : ℕ
  pub lsb : ℕ
  pub reset : ℕ
  pub access : Access
  pub values : List ℕ

pub record Register : Type 0 where
  pub offset : ℕ
  pub bits : ℕ
  pub reset : ℕ
  pub fields : List Field

abbrev pub field : String → ℕ → ℕ → ℕ → ℕ → Access → List ℕ → Field
field name bits msb lsb reset access values = record {
  name = name;
  bits = bits;
  msb = msb;
  lsb = lsb;
  reset = reset;
  access = access;
  values = values;
}

abbrev pub register : ℕ → ℕ → ℕ → List Field → Register
register offset bits reset fields = record {
  offset = offset;
  bits = bits;
  reset = reset;
  fields = fields;
}

-- `#define REG_FIELD_WIDTH(f) (f ## _MSB + 1 - f ## _LSB)`
abbrev pub reg_field_width : Field → ℕ
reg_field_width f = f.msb + 1 - f.lsb

-- `(v & F_BITS) >> F_LSB`, and `(v & ~F_BITS) | (x << F_LSB)`, as C code reads and updates a field.
abbrev pub get_field : Field → ℕ → ℕ
get_field f v = bit_and v f.bits / 2 ^ f.lsb

abbrev pub set_field : Field → ℕ → ℕ → ℕ
set_field f x v = bit_or (bit_and v (not_u f.bits)) (x * 2 ^ f.lsb)
