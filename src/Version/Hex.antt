-- ===== src/Version/Hex.antt =====
-- `PY_VERSION_HEX` and the fields of a version.
use gc_scope.Base.{◌/◌, ◌%◌, ◌^◌, ◌<◌, ◌≡◌, none, some, ◌==◌, if◌then◌else◌, ◌&&◌, arith}
use gc_scope.Version.{PythonVersion, from_hex, to_hex}

-- The fields fit their bits.
pub record IsFields (v : PythonVersion) : Type 0 where
  pub major_u8 : v.major < 256
  pub minor_u8 : v.minor < 256
  pub micro_u8 : v.micro < 256
  pub level_nibble : v.release_level < 16
  pub serial_nibble : v.serial < 16

major_of : (v : PythonVersion) → IsFields v → to_hex v / 2 ^ 24 % 256 ≡ v.major
unfolding to_hex
major_of v h =
    let a = h.major_u8 in
    let b = h.minor_u8 in
    let c = h.micro_u8 in
    let d = h.level_nibble in let e = h.serial_nibble in omega (arith, a, b, c, d, e)

-- From the `PY_VERSION_HEX` of a version in which each field fits its bits, the version is read
-- back, unless its major and minor numbers are both 0: then nothing is read, whatever else it says.
pub from_hex-to_hex :
    (v : PythonVersion)
    → IsFields v
    → from_hex (to_hex v) ≡ (if v.major == 0 && v.minor == 0 then none else some v)
unfolding from_hex to_hex
from_hex-to_hex v h =
    let a = h.major_u8 in
    let b = h.minor_u8 in
    let c = h.micro_u8 in
    let d = h.level_nibble in
    let e = h.serial_nibble in
    let major = major_of v h in
    let minor : to_hex v / 2 ^ 16 % 256 ≡ v.minor = omega (arith, a, b, c, d, e) in
    let micro : to_hex v / 2 ^ 8 % 256 ≡ v.micro = omega (arith, a, b, c, d, e) in
    let level : to_hex v / 16 % 16 ≡ v.release_level = omega (arith, a, b, c, d, e) in
    let serial : to_hex v % 16 ≡ v.serial = omega (arith, a, b, c, d, e) in
    ground (arith, major, minor, micro, level, serial)
