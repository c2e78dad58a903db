-- ===== src/Rpc/Fragment.antt =====
-- `fragment_header` of crates/nfs3_types/src/rpc.rs. A mask with one bit set, or with all bits below
-- it, is division and remainder by the power of two.
use nfs.Prelude.{
  ◌-◌, ℕ, ◌+◌, ◌/◌, ◌%◌, ◌^◌, ◌<◌, ◌≡◌, Bool, true, false, Option, none, some, List, if◌then◌else◌,
  leb, ◌==◌, not, arith,
}
use nfs.Xdr.Primitives.{to_be_bytes, from_be_bytes}
use nfs.Xdr.RoundTrip.{from_be_bytes-to_be_bytes}

pub record FragmentHeader : Type 0 where
  pub header : ℕ

abbrev pub eof_flag : ℕ
eof_flag = 2 ^ 31

abbrev pub mask : ℕ
mask = 2 ^ 31 - 1

-- `fragment_header::new`; `none` is the panic of its `assert!`.
unfoldable pub new : ℕ → Bool → Option FragmentHeader
new length eof =
    if leb length mask
    then some (record { header = if eof then length + eof_flag else length })
    else none

unfoldable pub eof : FragmentHeader → Bool
eof h = not (h.header / eof_flag % 2 == 0)

unfoldable pub fragment_length : FragmentHeader → ℕ
fragment_length h = h.header % eof_flag

unfoldable pub into_xdr_buf : FragmentHeader → List ℕ
into_xdr_buf h = to_be_bytes h.header

-- `From<[u8; 4]>`
unfoldable pub from_buf : List ℕ → FragmentHeader
from_buf bytes = record { header = from_be_bytes bytes }

-- A length below 2^31 and the flag of the last fragment survive the four bytes of the header: `new`
-- does not panic, and the header read back from its bytes has that length and that flag.
pub from_buf-into_xdr_buf :
    (length : ℕ) (last : Bool)
    → length < 2 ^ 31
    → (h : FragmentHeader) × (new length last ≡ some h)
      × (fragment_length (from_buf (into_xdr_buf h)) ≡ length)
      × (eof (from_buf (into_xdr_buf h)) ≡ last)
unfolding new eof fragment_length into_xdr_buf from_buf
from_buf-into_xdr_buf length true l =
    let e = from_be_bytes-to_be_bytes (length + eof_flag) (omega arith) in
    (record { header = length + eof_flag }, ground arith, rw e (omega arith), rw e (ground arith))
from_buf-into_xdr_buf length false l =
    let e = from_be_bytes-to_be_bytes length (omega arith) in
    (record { header = length }, ground arith, rw e (omega arith), rw e (ground arith))
