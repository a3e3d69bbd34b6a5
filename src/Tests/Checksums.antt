-- ===== src/Tests/Checksums.antt =====
-- The checksums of libnbuss/Crc16.cpp at concrete inputs.
use nonblocking_unix_socket.Base.{ℕ, ◌<◌, ◌≡◌, refl, List, [], ◌∷◌, some, arith}
use nonblocking_unix_socket.Crc16.{make_crc16, crc_16, crc_modbus, update_crc_16}
use nonblocking_unix_socket.Crc16.Serial.{serial_crc, crc-eq-serial}

-- "123456789", whose checksum is 0xBB3D.
abbrev digits : List ℕ
digits = 49 ∷ 50 ∷ 51 ∷ 52 ∷ 53 ∷ 54 ∷ 55 ∷ 56 ∷ 57 ∷ []

crc_digits : crc_16 make_crc16 (some digits) ≡ 47933
unfolding crc_16 make_crc16
crc_digits = refl

modbus_digits : crc_modbus make_crc16 (some digits) ≡ 19255
unfolding crc_modbus make_crc16
modbus_digits = refl

crc-eq-serial_example :
    (update_crc_16 make_crc16 0 (some (49 ∷ 50 ∷ [])) ≡ serial_crc 0 (49 ∷ 50 ∷ []))
    × (update_crc_16 make_crc16 0 (some (49 ∷ 50 ∷ [])) < 65536)
crc-eq-serial_example =
    crc-eq-serial 0 (49 ∷ 50 ∷ []) (omega arith) (omega arith, (omega arith, tt))
