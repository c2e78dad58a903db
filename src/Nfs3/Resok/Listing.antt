-- ===== src/Nfs3/Resok/Listing.antt =====
-- What READDIR and READDIRPLUS of crates/nfs3_types/src/nfs3.rs return when they succeed.
use nfs.Prelude.{ℕ, List, Option}
use nfs.Xdr.Codec.{Codec}
use nfs.Xdr.Derive.{no_fields, ◌&◌, struct_codec}
use nfs.Nfs3.Attributes.{Fattr3, fattr3_codec, option_codec}
use nfs.Nfs3.Data.{cookieverf3_codec, Dirlist3, dirlist3_codec, Dirlistplus3, dirlistplus3_codec}

pub record Readdir3resok : Type 0 where
  pub dir_attributes : Option Fattr3
  pub cookieverf : List ℕ
  pub reply : Dirlist3

unfoldable pub readdir3resok_codec : Codec Readdir3resok
readdir3resok_codec =
    struct_codec ((option_codec fattr3_codec) & cookieverf3_codec & dirlist3_codec & no_fields)
      (λ s. (s.dir_attributes, (s.cookieverf, (s.reply, tt))))
      (λ f. record { dir_attributes = f.0; cookieverf = f.1.0; reply = f.1.1.0 })

pub record Readdirplus3resok : Type 0 where
  pub dir_attributes : Option Fattr3
  pub cookieverf : List ℕ
  pub reply : Dirlistplus3

unfoldable pub readdirplus3resok_codec : Codec Readdirplus3resok
readdirplus3resok_codec =
    struct_codec ((option_codec fattr3_codec) & cookieverf3_codec & dirlistplus3_codec & no_fields)
      (λ s. (s.dir_attributes, (s.cookieverf, (s.reply, tt))))
      (λ f. record { dir_attributes = f.0; cookieverf = f.1.0; reply = f.1.1.0 })
