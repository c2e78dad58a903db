-- ===== src/Examples/Listings.antt =====
-- The theorems about READDIR and READDIRPLUS of crates/nfs3_server/src, at a small server.
use nfs.Prelude.{ℕ, ◌≤◌, ◌≡◌, ◌+◌, refl, true, some, List, [], ◌∷◌}
use nfs.Xdr.Primitives.{to_be_bytes, to_be_bytes_u64}
use nfs.Xdr.Derive.{struct_codec}
use nfs.Xdr.Chain.Bounded
use nfs.Nfs3.Data.{entry3_codec}
use nfs.Vfs.Action.{pure, ◌>>=◌, on_result}
use nfs.Vfs.Handle.{fh_from_nfs, check_handle, le_bytes, from_le_bytes}
use nfs.Handlers.Nfs.Common.{attributes_of}
use nfs.Handlers.Nfs.Listing.{readdir_within}
use nfs.Handlers.Nfs.Entries.{new, fill, from_attr}
use nfs.MemFs.Service.{make_iter, visit_next_entry, getattr, add_dir}
use nfs.MemFs.Store
use nfs.MemFs.Store.{push, push_to}
use nfs.Nfs3.Status.{succeeded}
use nfs.Nfs3.Attributes.{Nfstime3}
use nfs.Nfs3.Args.{Readdir3args, Readdirplus3args}
use nfs.Nfs3.Resok.{Readdir3resok, readdir3resok_codec, Readdirplus3resok, readdirplus3resok_codec}
use nfs.MemFs.Entry.{dir, new_dir, attr_of}
use nfs.MemFs.Service.{empty, mkdir}
use nfs.Vfs.Handle.{file_handle_u64, converter, fh_to_nfs}
use nfs.Handlers.Nfs.Entries.Counted.{dir_bytes}
use nfs.Handlers.Nfs.Listing.Bounds.{readdir-le-count}
use nfs.Handlers.Nfs.Listing.BoundsPlus.{readdirplus-le-counts}
use nfs.Handlers.Nfs.Listing.Ends.{ListsTotally, readdir-Total, readdirplus-Total}
use nfs.Vfs.FileSystem.{split}
use nfs.Vfs.Action.Returns.{Total}
use nfs.Handlers.Nfs.Listing.{readdir, readdirplus}
use nfs.Examples.Server.{midnight, name, memfs, context, root_handle}

abbrev no_cookie : List ℕ
no_cookie = 0 ∷ 0 ∷ 0 ∷ 0 ∷ 0 ∷ 0 ∷ 0 ∷ 0 ∷ []

abbrev list_root : Readdir3args
list_root = record { dir = root_handle; cookie = 0; cookieverf = no_cookie; count = 4096 }

abbrev list_root_plus : Readdirplus3args
list_root_plus = record {
  dir = root_handle;
  cookie = 0;
  cookieverf = no_cookie;
  dircount = 1024;
  maxcount = 4096;
}

abbrev root_listed : Readdir3resok
root_listed = record {
  dir_attributes = some (attr_of (dir (new_dir midnight (47 ∷ []) 1 0)));
  cookieverf = no_cookie;
  reply = record { entries = record { fileid = 2; name = name; cookie = 2 } ∷ []; eof = true };
}

listed : (readdir context 7 list_root memfs).0 ≡ some (succeeded root_listed)
unfolding readdir on_result fh_from_nfs check_handle fh_to_nfs converter le_bytes from_le_bytes
    attributes_of ◌>>=◌ pure readdir_within fill Bounded.new Bounded.try_push from_attr
    to_be_bytes_u64 to_be_bytes make_iter visit_next_entry getattr empty mkdir add_dir push push_to
    Store.new new_dir entry3_codec readdir3resok_codec struct_codec nfs.Xdr.Derive.◌&◌
    nfs.Nfs3.Attributes.option_codec nfs.Xdr.Derive.complex_enum_codec
    nfs.Nfs3.Attributes.option_size nfs.Nfs3.Attributes.fattr3_codec
    nfs.Nfs3.Attributes.ftype3_codec nfs.Xdr.Derive.simple_enum_codec
    nfs.Nfs3.Attributes.specdata3_codec nfs.Nfs3.Attributes.nfstime3_codec
    nfs.Nfs3.Data.cookieverf3_codec nfs.Xdr.Util.add_padding nfs.Nfs3.Data.dirlist3_codec
    nfs.Xdr.Chain.list_size nfs.Nfs3.Data.filename3_codec
listed = refl

readdir_le_count_example : readdir3resok_codec.packed_size root_listed + 4 ≤ 4096
readdir_le_count_example = readdir-le-count context 7 list_root memfs root_listed listed

abbrev root_listed_plus : Readdirplus3resok
root_listed_plus = record {
  dir_attributes = some (attr_of (dir (new_dir midnight (47 ∷ []) 1 0)));
  cookieverf = no_cookie;
  reply = record {
    entries =
        record {
          fileid = 2;
          name = name;
          cookie = 2;
          name_attributes = some (attr_of (dir (new_dir midnight name 2 1)));
          name_handle = some (fh_to_nfs file_handle_u64 (converter 1700000000000) 2);
        }
        ∷ [];
    eof = true;
  };
}

listed_plus : (readdirplus context list_root_plus memfs).0 ≡ some (succeeded root_listed_plus)
unfolding readdirplus on_result fh_from_nfs check_handle fh_to_nfs converter le_bytes ◌>>=◌
    attributes_of pure make_iter mkdir add_dir push empty new_dir from_le_bytes visit_next_entry
    nfs.Handlers.Nfs.Entries.try_push new nfs.Nfs3.Data.filename3_codec struct_codec
    nfs.Xdr.Derive.◌&◌ nfs.Xdr.Util.add_padding nfs.Vfs.FileSystem.into_entry Bounded.try_push
    Bounded.new nfs.Xdr.Chain.list_size nfs.Nfs3.Data.entryplus3_codec
    nfs.Nfs3.Attributes.option_codec nfs.Xdr.Derive.complex_enum_codec
    nfs.Nfs3.Attributes.option_size nfs.Nfs3.Attributes.fattr3_codec
    nfs.Nfs3.Attributes.ftype3_codec nfs.Xdr.Derive.simple_enum_codec
    nfs.Nfs3.Attributes.specdata3_codec nfs.Nfs3.Attributes.nfstime3_codec
    nfs.Nfs3.Data.nfs_fh3_codec getattr from_attr to_be_bytes_u64 to_be_bytes
listed_plus = refl

readdirplus_le_counts_example :
    (readdirplus3resok_codec.packed_size root_listed_plus ≤ 4096)
    × (dir_bytes root_listed_plus.reply.entries ≤ 1024)
readdirplus_le_counts_example =
    readdirplus-le-counts context list_root_plus memfs root_listed_plus listed_plus

memfs-ListsTotally : ListsTotally context.vfs
memfs-ListsTotally = record {
  getattr_total = λ id. record { value = λ s. (_, refl) };
  readdir_total = λ id cookie. record { value = λ s. (_, refl) };
  readdirplus_total = λ id cookie. record { value = λ s. (_, refl) };
  next_total = λ i. record { value = λ s. (_, refl) };
  next_plus_total = λ j. record { value = λ s. (_, refl) };
}

readdir_total_example : Total (readdir context 7 list_root)
readdir_total_example = readdir-Total context memfs-ListsTotally 7 list_root

readdirplus_total_example : Total (readdirplus context list_root_plus)
readdirplus_total_example = readdirplus-Total context memfs-ListsTotally list_root_plus
