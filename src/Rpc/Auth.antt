-- ===== src/Rpc/Auth.antt =====
-- `opaque_auth`, `auth_unix` and `call_body` of crates/nfs3_types/src/rpc.rs.
use nfs.Prelude.{ℕ, List, [], Result, ok, ◌>>=◌}
use nfs.Xdr.Codec.{Codec, Error}
use nfs.Xdr.Primitives.{u32_codec, vec_u32_codec}
use nfs.Xdr.Opaque.{opaque_codec}
use nfs.Xdr.Derive.{no_fields, ◌&◌, struct_codec}
use nfs.Rpc.Stats.{AuthFlavor, auth_null, auth_unix, auth_flavor_codec}

pub record OpaqueAuth : Type 0 where
  pub flavor : AuthFlavor
  pub body : List ℕ

unfoldable pub opaque_auth_codec : Codec OpaqueAuth
opaque_auth_codec =
    struct_codec (auth_flavor_codec & opaque_codec & no_fields) (λ a. (a.flavor, (a.body, tt)))
      (λ f. record { flavor = f.0; body = f.1.0 })

-- `opaque_auth::default`
unfoldable pub default : OpaqueAuth
default = record { flavor = auth_null; body = [] }

pub record AuthUnix : Type 0 where
  pub stamp : ℕ
  pub machinename : List ℕ
  pub uid : ℕ
  pub gid : ℕ
  pub gids : List ℕ

unfoldable pub auth_unix_codec : Codec AuthUnix
auth_unix_codec =
    struct_codec (u32_codec & opaque_codec & u32_codec & u32_codec & vec_u32_codec & no_fields)
      (λ a. (a.stamp, (a.machinename, (a.uid, (a.gid, (a.gids, tt))))))
      (λ f. record {
        stamp = f.0;
        machinename = f.1.0;
        uid = f.1.1.0;
        gid = f.1.1.1.0;
        gids = f.1.1.1.1.0;
      })

-- `opaque_auth::auth_unix`; an error is the panic of its `expect`.
unfoldable pub of_auth_unix : AuthUnix → Result OpaqueAuth Error
of_auth_unix auth = do
  (_, out) ← auth_unix_codec.pack auth []
  ok (record { flavor = auth_unix; body = out })

pub record CallBody : Type 0 where
  pub rpcvers : ℕ
  pub prog : ℕ
  pub vers : ℕ
  pub proc : ℕ
  pub cred : OpaqueAuth
  pub verf : OpaqueAuth

unfoldable pub call_body_codec : Codec CallBody
call_body_codec =
    struct_codec
      (u32_codec & u32_codec & u32_codec & u32_codec & opaque_auth_codec & opaque_auth_codec
        & no_fields)
      (λ b. (b.rpcvers, (b.prog, (b.vers, (b.proc, (b.cred, (b.verf, tt)))))))
      (λ f. record {
        rpcvers = f.0;
        prog = f.1.0;
        vers = f.1.1.0;
        proc = f.1.1.1.0;
        cred = f.1.1.1.1.0;
        verf = f.1.1.1.1.1.0;
      })
