-- ===== src/Xdr/Util.antt =====
-- Padding to four bytes (crates/nfs3_types/src/xdr_codec/util.rs).
use nfs.Prelude.{
  ℕ, ◌+◌, ◌-◌, ◌*◌, ◌/◌, ◌%◌, ◌^◌, ◌<◌, ◌≡◌, List, length, replicate, length-replicate, arith,
}

-- `(sz + 3) & !3` clears the low two bits.
unfoldable pub add_padding : ℕ → ℕ
add_padding sz = (sz + 3) / 4 * 4

-- `-(len as isize) & 3`: the negation wraps modulo 2^64.
unfoldable pub get_padding : ℕ → ℕ
get_padding len = (2 ^ 64 - len) % 4

-- A slice of the three zero bytes.
unfoldable pub zero_padding : ℕ → List ℕ
zero_padding len = replicate (get_padding len) 0

-- The two paddings agree: the padded size is the size and its padding.
pub add_padding-get_padding : (n : ℕ) → n < 2 ^ 63 → n + get_padding n ≡ add_padding n
unfolding add_padding get_padding
add_padding-get_padding n h = omega arith

pub get_padding-lt : (n : ℕ) → get_padding n < 4
unfolding get_padding
get_padding-lt n = omega arith

pub add_padding-mod : (n : ℕ) → add_padding n % 4 ≡ 0
unfolding add_padding
add_padding-mod n = omega arith

pub length-zero_padding : (n : ℕ) → length (zero_padding n) ≡ get_padding n
unfolding zero_padding
length-zero_padding n = length-replicate (get_padding n) 0
