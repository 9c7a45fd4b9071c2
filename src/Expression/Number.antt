-- ===== src/Expression/Number.antt =====
-- The encoding of integers: src/astreum/expression/expr.py.
pub mod RoundTrip
use lib_py.Base.{
  ℕ, zero, suc, ◌+◌, ◌-◌, ◌*◌, ◌/◌, ◌%◌, ◌^◌, max, [], ◌∷◌, length, leb, if◌then◌else◌,
}
use lib_py.Base.Int.{ℤ, pos, negsuc}
use lib_py.Base.Bits.{bit_length}
use lib_py.Base.Bytes.{Bytes}

-- Python's `abs(value).bit_length()`, which is `value.bit_length()`.
abbrev pub magnitude : ℤ → ℕ
magnitude (pos n) = n
magnitude (negsuc n) = suc n

-- Python's `to_bytes(n, "little")` and `int.from_bytes(data, "little")` of a number.
unfoldable pub little_endian : ℕ → ℕ → Bytes
little_endian zero value = []
little_endian (suc n) value = (value % 256) ∷ little_endian n (value / 256)

unfoldable pub from_little_endian : Bytes → ℕ
from_little_endian [] = 0
from_little_endian (b ∷ rest) = b + 256 * from_little_endian rest

-- The two's complement of `value` on `n` bytes.
abbrev pub residue : ℕ → ℤ → ℕ
residue n (pos m) = m
residue n (negsuc m) = 256 ^ n - 1 - m

-- The number of bytes of `_encode_int`.
unfoldable pub int_bytes : ℤ → ℕ
int_bytes value = max 1 ((bit_length (magnitude value) + 8) / 8)

unfoldable pub encode_int : ℤ → Bytes
encode_int value = let n = int_bytes value in little_endian n (residue n value)

-- The sign is the highest bit: a number of at least half the range is negative.
abbrev pub signed_of : ℕ → ℕ → ℤ
signed_of range u = if leb range (2 * u) then negsuc (range - 1 - u) else pos u

unfoldable pub decode_int : Bytes → ℤ
decode_int bytes = signed_of (256 ^ length bytes) (from_little_endian bytes)
