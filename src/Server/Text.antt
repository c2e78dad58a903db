-- ===== src/Server/Text.antt =====
-- What `mountproc3_mnt` of crates/nfs3_server/src/mount_handlers.rs uses of Rust's strings. A string is
-- the list of its characters, and a character the list of its bytes in UTF-8.
use nfs.Prelude.{
  ℕ, zero, suc, Bool, false, ◌&&◌, ◌||◌, Option, none, some, List, [], ◌∷◌, ◌++◌, ◌==◌, leb,
  bytes_eq, if◌then◌else◌,
}
use mathlib.Core.List.{reverse}

-- The bytes of a character that were read, how many are to come, and the range of the next one.
pub record Decoder : Type 0 where
  pub read : List ℕ
  pub more : ℕ
  pub low : ℕ
  pub high : ℕ

abbrev pub at_start : Decoder
at_start = record { read = []; more = 0; low = 0; high = 0 }

abbrev pub between : ℕ → ℕ → ℕ → Bool
between low high b = leb low b && leb b high

abbrev pub awaits : ℕ → ℕ → ℕ → ℕ → Option (Decoder × List (List ℕ))
awaits b more low high = some (record { read = b ∷ []; more = more; low = low; high = high }, [])

-- The first byte of a character.
unfoldable pub first_byte : ℕ → Option (Decoder × List (List ℕ))
first_byte b =
    if leb b 0x7F
    then some (at_start, (b ∷ []) ∷ [])
    else if between 0xC2 0xDF b
    then awaits b 1 0x80 0xBF
    else if b == 0xE0
    then awaits b 2 0xA0 0xBF
    else if b == 0xED
    then awaits b 2 0x80 0x9F
    else if between 0xE1 0xEF b
    then awaits b 2 0x80 0xBF
    else if b == 0xF0
    then awaits b 3 0x90 0xBF
    else if between 0xF1 0xF3 b
    then awaits b 3 0x80 0xBF
    else if b == 0xF4
    then awaits b 3 0x80 0x8F
    else none

-- A further byte, with the number of those behind it.
unfoldable pub further_byte : Decoder → ℕ → ℕ → Option (Decoder × List (List ℕ))
further_byte d zero b =
    if between d.low d.high b then some (at_start, (d.read ++ (b ∷ [])) ∷ []) else none
further_byte d (suc more) b =
    if between d.low d.high b
    then some (record { read = d.read ++ (b ∷ []); more = suc more; low = 0x80; high = 0xBF }, [])
    else none

unfoldable pub decode_byte : ℕ → Decoder → ℕ → Option (Decoder × List (List ℕ))
unfolding first_byte further_byte
decode_byte zero d b = first_byte b
decode_byte (suc more) d b = further_byte d more b

abbrev pub add_chars : List (List ℕ) → Option (List (List ℕ)) → Option (List (List ℕ))
add_chars cs none = none
add_chars cs (some rest) = some (cs ++ rest)

-- `std::str::from_utf8`
unfoldable pub from_utf8_loop : Decoder → List ℕ → Option (List (List ℕ))
unfolding decode_byte
from_utf8_loop d [] = if d.more == 0 then some [] else none
from_utf8_loop d (b ∷ bytes) = elim (decode_byte d.more d b) [
  | none ↦ none
  | some (d', cs) ↦ add_chars cs (from_utf8_loop d' bytes)
]

unfoldable pub from_utf8 : List ℕ → Option (List (List ℕ))
unfolding from_utf8_loop
from_utf8 bytes = from_utf8_loop at_start bytes

abbrev pub as_bytes : List (List ℕ) → List ℕ
as_bytes [] = []
as_bytes (c ∷ cs) = c ++ as_bytes cs

-- `str::strip_prefix`
unfoldable pub strip_prefix : List ℕ → List ℕ → Option (List ℕ)
strip_prefix [] bytes = some bytes
strip_prefix (p ∷ prefix) [] = none
strip_prefix (p ∷ prefix) (b ∷ bytes) = if p == b then strip_prefix prefix bytes else none

unfoldable pub trim_start : (List ℕ → Bool) → List (List ℕ) → List (List ℕ)
trim_start test [] = []
trim_start test (c ∷ cs) = if test c then trim_start test cs else c ∷ cs

unfoldable pub trim_end : (List ℕ → Bool) → List (List ℕ) → List (List ℕ)
unfolding trim_start
trim_end test cs = reverse (trim_start test (reverse cs))

abbrev pub is_slash : List ℕ → Bool
is_slash c = bytes_eq c (47 ∷ [])

-- `char::is_whitespace`
unfoldable pub is_whitespace : List ℕ → Bool
is_whitespace (b ∷ []) = between 9 13 b || (b == 32)
is_whitespace (b ∷ c ∷ []) = (b == 0xC2) && ((c == 0x85) || (c == 0xA0))
is_whitespace (b ∷ c ∷ d ∷ []) =
    bytes_eq (b ∷ c ∷ d ∷ []) (0xE1 ∷ 0x9A ∷ 0x80 ∷ [])
    || ((b == 0xE2) && (c == 0x80) && (between 0x80 0x8A d || between 0xA8 0xA9 d || (d == 0xAF)))
    || bytes_eq (b ∷ c ∷ d ∷ []) (0xE2 ∷ 0x81 ∷ 0x9F ∷ [])
    || bytes_eq (b ∷ c ∷ d ∷ []) (0xE3 ∷ 0x80 ∷ 0x80 ∷ [])
is_whitespace _ = false

-- `trim_start_matches('/')`, `trim_end_matches('/')` and `trim()`, one after the other.
unfoldable pub trim_path : List (List ℕ) → List (List ℕ)
unfolding trim_start trim_end is_whitespace
trim_path cs =
    trim_end is_whitespace (trim_start is_whitespace (trim_end is_slash (trim_start is_slash cs)))
