-- ===== src/Nfs3/Resok/System.antt =====
-- What FSINFO, FSSTAT and PATHCONF of crates/nfs3_types/src/nfs3.rs return when they succeed.
use nfs.Prelude.{ℕ, Bool, Option}
use nfs.Xdr.Codec.{Codec}
use nfs.Xdr.Primitives.{u32_codec, u64_codec, bool_codec}
use nfs.Xdr.Derive.{no_fields, ◌&◌, struct_codec}
use nfs.Nfs3.Attributes.{Fattr3, fattr3_codec, Nfstime3, nfstime3_codec, option_codec}

pub record Fsinfo3resok : Type 0 where
  pub obj_attributes : Option Fattr3
  pub rtmax : ℕ
  pub rtpref : ℕ
  pub rtmult : ℕ
  pub wtmax : ℕ
  pub wtpref : ℕ
  pub wtmult : ℕ
  pub dtpref : ℕ
  pub maxfilesize : ℕ
  pub time_delta : Nfstime3
  pub properties : ℕ

unfoldable pub fsinfo3resok_codec : Codec Fsinfo3resok
fsinfo3resok_codec =
    struct_codec
      ((option_codec fattr3_codec)
        & u32_codec
        & u32_codec
        & u32_codec
        & u32_codec
        & u32_codec
        & u32_codec
        & u32_codec
        & u64_codec
        & nfstime3_codec
        & u32_codec
        & no_fields)
      (λ s. (
        s.obj_attributes,
        (
          s.rtmax,
          (
            s.rtpref,
            (
              s.rtmult,
              (
                s.wtmax,
                (
                  s.wtpref,
                  (s.wtmult, (s.dtpref, (s.maxfilesize, (s.time_delta, (s.properties, tt))))),
                ),
              ),
            ),
          ),
        ),
      ))
      (λ f. record {
        obj_attributes = f.0;
        rtmax = f.1.0;
        rtpref = f.1.1.0;
        rtmult = f.1.1.1.0;
        wtmax = f.1.1.1.1.0;
        wtpref = f.1.1.1.1.1.0;
        wtmult = f.1.1.1.1.1.1.0;
        dtpref = f.1.1.1.1.1.1.1.0;
        maxfilesize = f.1.1.1.1.1.1.1.1.0;
        time_delta = f.1.1.1.1.1.1.1.1.1.0;
        properties = f.1.1.1.1.1.1.1.1.1.1.0;
      })

pub record Fsstat3resok : Type 0 where
  pub obj_attributes : Option Fattr3
  pub tbytes : ℕ
  pub fbytes : ℕ
  pub abytes : ℕ
  pub tfiles : ℕ
  pub ffiles : ℕ
  pub afiles : ℕ
  pub invarsec : ℕ

unfoldable pub fsstat3resok_codec : Codec Fsstat3resok
fsstat3resok_codec =
    struct_codec
      ((option_codec fattr3_codec)
        & u64_codec
        & u64_codec
        & u64_codec
        & u64_codec
        & u64_codec
        & u64_codec
        & u32_codec
        & no_fields)
      (λ s. (
        s.obj_attributes,
        (s.tbytes, (s.fbytes, (s.abytes, (s.tfiles, (s.ffiles, (s.afiles, (s.invarsec, tt))))))),
      ))
      (λ f. record {
        obj_attributes = f.0;
        tbytes = f.1.0;
        fbytes = f.1.1.0;
        abytes = f.1.1.1.0;
        tfiles = f.1.1.1.1.0;
        ffiles = f.1.1.1.1.1.0;
        afiles = f.1.1.1.1.1.1.0;
        invarsec = f.1.1.1.1.1.1.1.0;
      })

pub record Pathconf3resok : Type 0 where
  pub obj_attributes : Option Fattr3
  pub linkmax : ℕ
  pub name_max : ℕ
  pub no_trunc : Bool
  pub chown_restricted : Bool
  pub case_insensitive : Bool
  pub case_preserving : Bool

unfoldable pub pathconf3resok_codec : Codec Pathconf3resok
pathconf3resok_codec =
    struct_codec
      ((option_codec fattr3_codec)
        & u32_codec
        & u32_codec
        & bool_codec
        & bool_codec
        & bool_codec
        & bool_codec
        & no_fields)
      (λ s. (
        s.obj_attributes,
        (
          s.linkmax,
          (
            s.name_max,
            (s.no_trunc, (s.chown_restricted, (s.case_insensitive, (s.case_preserving, tt)))),
          ),
        ),
      ))
      (λ f. record {
        obj_attributes = f.0;
        linkmax = f.1.0;
        name_max = f.1.1.0;
        no_trunc = f.1.1.1.0;
        chown_restricted = f.1.1.1.1.0;
        case_insensitive = f.1.1.1.1.1.0;
        case_preserving = f.1.1.1.1.1.1.0;
      })
