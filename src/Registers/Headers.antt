-- ===== src/Registers/Headers.antt =====
-- The registers of pads_qspi.h, ssi.h and m0plus.h together, at the addresses of addressmap.h.
use inmojomni.Base.{ℕ, ◌+◌, ◌%◌, ◌^◌, ◌≤◌, ◌<◌, ◌≡◌, refl, arith, Bool, true, ◌==◌, ==_iff, ◌&&◌}
use inmojomni.Base.{
  ◌⊎◌, inl, inr, List, [], ◌∷◌, ◌++◌, IsIn, all_of, all_of-IsIn, &&-eq-true, ascends, ascends_apart,
}
use inmojomni.AddressMap.{Region, base_address, xip_ssi, pads_qspi, ppb}
use inmojomni.Registers.{Field, Register, reg_field_width, get_field, set_field}
use inmojomni.Registers.Splice.{above}
use inmojomni.Registers.Fields.{register_ok, field_ok, constants_ok, field_bits}
use inmojomni.Registers.Fields.{set_field-reads, reset-reads}
use inmojomni.Registers.PadsQspi.{pads_qspi_registers}
use inmojomni.Registers.Ssi.{ssi_registers}
use inmojomni.Registers.M0Plus.{m0plus_registers}

abbrev placed_at : Region → List Register → List (Region × Register)
placed_at p [] = []
placed_at p (r ∷ l) = (p, r) ∷ placed_at p l

-- The registers of the three headers, in the order of their addresses.
abbrev pub header_registers : List (Region × Register)
header_registers =
    placed_at xip_ssi ssi_registers
    ++ (placed_at pads_qspi pads_qspi_registers ++ placed_at ppb m0plus_registers)

abbrev pub address_of : Region × Register → ℕ
address_of (p, r) = base_address p + r.offset

abbrev address_end : Region × Register → ℕ
address_end x = address_of x + 4

-- The constants agree, and the address is that of a word.
placed_ok : Region × Register → Bool
placed_ok x = register_ok x.1 && (address_of x % 4 == 0)

header_registers_ok : all_of placed_ok header_registers ≡ true
unfolding all_of placed_ok register_ok field_ok constants_ok field_bits ascends above base_address
header_registers_ok = refl

header_registers-ascends : ascends address_of address_end 0 header_registers ≡ true
unfolding ascends base_address
header_registers-ascends = refl

member_ok :
    (x : Region × Register)
    → IsIn x header_registers
    → (register_ok x.1 ≡ true) × (address_of x % 4 ≡ 0)
unfolding placed_ok
member_ok x i =
    let (ok, word) =
      &&-eq-true (register_ok x.1) _
        (all_of-IsIn placed_ok header_registers x header_registers_ok i) in
    (ok, (==_iff (address_of x % 4) 0).0 word)

-- For every field of every register of the headers, the mask and the lowest bit agree: in any 32-bit word,
-- a value of the field's width that is put in the field is what is taken out of it, and what is taken
-- out of every other field of the register is as before. Nothing is said of how the device itself takes
-- a write.
pub header_fields-update :
    (x : Region × Register) (f : Field) (v old : ℕ)
    → IsIn x header_registers
    → IsIn f x.1.fields
    → v < 2 ^ reg_field_width f
    → old < 2 ^ 32
    → (get_field f (set_field f v old) ≡ v)
      × ((g : Field)
          → IsIn g x.1.fields
          → (g ≡ f) ⊎ (get_field g (set_field f v old) ≡ get_field g old))
header_fields-update x f v old i j p q = set_field-reads x.1 (member_ok x i).0 f v old j p q

-- For every field of every register of the headers: it reads as its own reset value in the reset
-- value of the register, and that value and the named values fit the width of the field.
pub header_fields-reset :
    (x : Region × Register) (f : Field)
    → IsIn x header_registers
    → IsIn f x.1.fields
    → (get_field f x.1.reset ≡ f.reset)
      × (f.reset < 2 ^ reg_field_width f)
      × ((v : ℕ) → IsIn v f.values → v < 2 ^ reg_field_width f)
header_fields-reset x f i j = reset-reads x.1 (member_ok x i).0 f j

-- Registers of the headers at the same address are the same register, and each address is that of
-- a word.
pub header_registers-distinct :
    (x y : Region × Register)
    → IsIn x header_registers
    → IsIn y header_registers
    → (address_of x % 4 ≡ 0) × (address_of x ≡ address_of y → y ≡ x)
header_registers-distinct x y i j = (
  (member_ok x i).1,
  λ e.
      same e
        (ascends_apart address_of address_end 0 header_registers x y header_registers-ascends i j),
)
  where
    same :
        address_of x ≡ address_of y
        → (y ≡ x) ⊎ ((address_end y ≤ address_of x) ⊎ (address_end x ≤ address_of y))
        → y ≡ x
    same e (inl d) = d
    same e (inr (inl h)) = absurd (omega arith)
    same e (inr (inr h)) = absurd (omega arith)
