-- ===== src/Crc16.antt =====
-- libnbuss/Crc16.h and Crc16.cpp: CRC-16 with a table that the constructor computes. A `uint16_t`
-- is a number below 2 ^ 16; no operation here exceeds it. The input is a list of bytes, `num_bytes`
-- of them, or a null pointer.
pub mod Serial
pub mod Detect
use nonblocking_unix_socket.Base.{
  ℕ, zero, suc, ◌+◌, ◌/◌, ◌%◌, Bool, true, false, List, [], ◌∷◌, Option, none, some, ◌==◌, bit_and,
  if◌then◌else◌, get_or, set, replicate,
}
use Prim.Native.Nat.{bit_xor}

abbrev pub crc_poly_16 : ℕ
crc_poly_16 = 0xA001

abbrev pub crc_start_16 : ℕ
crc_start_16 = 0x0000

abbrev pub crc_start_modbus : ℕ
crc_start_modbus = 0xFFFF

-- The fields of `Crc16`: a table of 256 entries.
pub record Crc16 : Type 0 where
  pub crc_tab16_init : Bool
  pub crc_tab16 : List ℕ

-- The inner loop, over `j`: rounds left, `crc` and `c`.
unfoldable pub table_entry : ℕ → ℕ → ℕ → ℕ
table_entry zero crc c = crc
table_entry (suc rounds) crc c =
    table_entry rounds
      (if bit_and (bit_xor crc c) 1 == 0 then crc / 2 else bit_xor (crc / 2) crc_poly_16) (c / 2)

-- The outer loop, over `i`: rounds left, the table so far.
unfoldable pub fill_table : ℕ → ℕ → List ℕ → List ℕ
unfolding table_entry
fill_table zero i tab = tab
fill_table (suc rounds) i tab = fill_table rounds (i + 1) (set tab i (table_entry 8 0 i))

unfoldable pub init_crc16_tab : Crc16 → Crc16
unfolding fill_table
init_crc16_tab t = record { crc_tab16_init = true; crc_tab16 = fill_table 256 0 t.crc_tab16 }

-- The constructor. The array is not initialised before; zeros stand for what it holds.
unfoldable pub make_crc16 : Crc16
unfolding init_crc16_tab
make_crc16 = init_crc16_tab (record { crc_tab16_init = false; crc_tab16 = replicate 256 0 })

-- `update_crc_16` of one byte, and the body of the loops.
unfoldable pub update_crc_byte : Crc16 → ℕ → ℕ → ℕ
update_crc_byte t crc c = bit_xor (crc / 256) (get_or t.crc_tab16 (bit_and (bit_xor crc c) 255) 0)

unfoldable pub crc_loop : Crc16 → ℕ → List ℕ → ℕ
unfolding update_crc_byte
crc_loop t crc [] = crc
crc_loop t crc (c ∷ cs) = crc_loop t (update_crc_byte t crc c) cs

-- `update_crc_16` of a string of bytes. `none` is the null pointer.
unfoldable pub update_crc_16 : Crc16 → ℕ → Option (List ℕ) → ℕ
unfolding crc_loop
update_crc_16 t crc none = crc
update_crc_16 t crc (some input) = crc_loop t crc input

unfoldable pub crc_16 : Crc16 → Option (List ℕ) → ℕ
unfolding crc_loop
crc_16 t none = crc_start_16
crc_16 t (some input) = crc_loop t crc_start_16 input

unfoldable pub crc_modbus : Crc16 → Option (List ℕ) → ℕ
unfolding crc_loop
crc_modbus t none = crc_start_modbus
crc_modbus t (some input) = crc_loop t crc_start_modbus input
