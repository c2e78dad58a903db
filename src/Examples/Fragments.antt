-- ===== src/Examples/Fragments.antt =====
-- The theorems about fragmented messages of crates/nfs3_server/src, at a message in two fragments.
use nfs.Prelude.{◌^◌, ℕ, ◌≡◌, ◌+◌, ◌++◌, refl, some, List, [], ◌∷◌, ok, arith}
use nfs.Rpc.Fragment.{FragmentHeader, into_xdr_buf}
use nfs.Rpc.Fragment
use nfs.Server.Messages.{read_message, write_fragment}
use nfs.Server.Messages.Fragments.{
  Fragmented, last_fragment, fragment_before, read_message-Fragmented, write_fragment-Fragmented,
}

-- A message in two fragments.
abbrev first_header : FragmentHeader
first_header = record { header = 2 }

abbrev last_header : FragmentHeader
last_header = record { header = 2 ^ 31 + 1 }

in_two :
    Fragmented 2
      (1 ∷ 2 ∷ 3 ∷ [])
      (((into_xdr_buf first_header ++ (1 ∷ 2 ∷ []))) ++ (into_xdr_buf last_header ++ (3 ∷ [])))
unfolding Fragment.new
in_two =
    fragment_before 1 first_header (1 ∷ 2 ∷ []) (3 ∷ []) (into_xdr_buf last_header ++ (3 ∷ []))
      (omega arith) refl (last_fragment last_header (3 ∷ []) (omega arith) refl)

fragments_example :
    read_message 2 [] (
      ((into_xdr_buf first_header ++ (1 ∷ 2 ∷ [])) ++ (into_xdr_buf last_header ++ (3 ∷ [])))
      ++ (9 ∷ []))
    ≡ ok (1 ∷ 2 ∷ 3 ∷ [], 9 ∷ [])
fragments_example = read_message-Fragmented 2 _ _ in_two 2 (omega arith) [] (9 ∷ [])

write_fragment_example :
    (out : List ℕ) × (write_fragment (1 ∷ 2 ∷ 3 ∷ []) ≡ some out)
    × Fragmented 1 (1 ∷ 2 ∷ 3 ∷ []) out
write_fragment_example = write_fragment-Fragmented (1 ∷ 2 ∷ 3 ∷ []) (omega arith)
