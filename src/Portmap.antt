-- ===== src/Portmap.antt =====
-- The types of the port mapper protocol, crates/nfs3_types/src/portmap.rs, with their codecs.
use nfs.Prelude.{ℕ, Option, List, [], ◌∷◌}
use nfs.Xdr.Codec.{Codec}
use nfs.Xdr.Primitives.{u32_codec}
use nfs.Xdr.Opaque.{opaque_codec}
use nfs.Xdr.Derive.{no_fields, ◌&◌, struct_codec, find_variant}

pub record Mapping : Type 0 where
  pub prog : ℕ
  pub vers : ℕ
  pub prot : ℕ
  pub port : ℕ

unfoldable pub mapping_codec : Codec Mapping
mapping_codec =
    struct_codec (u32_codec & u32_codec & u32_codec & u32_codec & no_fields)
      (λ s. (s.prog, (s.vers, (s.prot, (s.port, tt)))))
      (λ f. record { prog = f.0; vers = f.1.0; prot = f.1.1.0; port = f.1.1.1.0 })

pub record CallArgs : Type 0 where
  pub prog : ℕ
  pub vers : ℕ
  pub proc : ℕ
  pub args : List ℕ

unfoldable pub call_args_codec : Codec CallArgs
call_args_codec =
    struct_codec (u32_codec & u32_codec & u32_codec & opaque_codec & no_fields)
      (λ s. (s.prog, (s.vers, (s.proc, (s.args, tt)))))
      (λ f. record { prog = f.0; vers = f.1.0; proc = f.1.1.0; args = f.1.1.1.0 })

pub record CallResult : Type 0 where
  pub port : ℕ
  pub res : List ℕ

unfoldable pub call_result_codec : Codec CallResult
call_result_codec =
    struct_codec (u32_codec & opaque_codec & no_fields) (λ s. (s.port, (s.res, tt)))
      (λ f. record { port = f.0; res = f.1.0 })

pub data PmapProg : Type 0 where
  pmapproc_null : PmapProg
  pmapproc_set : PmapProg
  pmapproc_unset : PmapProg
  pmapproc_getport : PmapProg
  pmapproc_dump : PmapProg
  pmapproc_callit : PmapProg

abbrev pub pmap_prog_number : PmapProg → ℕ
pmap_prog_number pmapproc_null = 0
pmap_prog_number pmapproc_set = 1
pmap_prog_number pmapproc_unset = 2
pmap_prog_number pmapproc_getport = 3
pmap_prog_number pmapproc_dump = 4
pmap_prog_number pmapproc_callit = 5

abbrev pub pmap_progs : List PmapProg
pmap_progs =
    pmapproc_null ∷ pmapproc_set ∷ pmapproc_unset ∷ pmapproc_getport ∷ pmapproc_dump
    ∷ pmapproc_callit ∷ []

-- `PMAP_PROG::try_from`
unfoldable pub pmap_prog_try_from : ℕ → Option PmapProg
unfolding find_variant
pmap_prog_try_from value = find_variant pmap_prog_number pmap_progs value
