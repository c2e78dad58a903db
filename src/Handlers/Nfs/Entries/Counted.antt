-- ===== src/Handlers/Nfs/Entries/Counted.antt =====
-- `BoundedEntryPlusList` of crates/nfs3_server/src/nfs_ext.rs: its counts, against its entries and its
-- two limits.
use nfs.Prelude.{
  ℕ, ◌+◌, ◌≤◌, ◌<◌, ◌≡◌, refl, List, [], ◌∷◌, ◌++◌, Result, ok, err, ltb, Bool-cases, inl, inr,
  arith,
}
use nfs.Xdr.Chain.Bounded
use nfs.Xdr.Chain.Bounded.{BoundedList}
use nfs.Xdr.Chain.Bounded.Exact.{Pushed, try_push-Pushed}
use nfs.Xdr.Chain.Bounded.Fits.{Fits, new-Fits, try_push-Fits, room, try_push-room}
use nfs.Nfs3.Data.{Entryplus3, entryplus3_codec}
use nfs.Handlers.Nfs.Entries.{BoundedEntryPlusList, new, try_push, added_dircount, counted}

-- The directory information of the entries, without attributes and handles.
abbrev pub dir_bytes : List Entryplus3 → ℕ
dir_bytes [] = 0
dir_bytes (e ∷ es) = added_dircount e + dir_bytes es

dir_bytes-snoc :
    (es : List Entryplus3) (e : Entryplus3)
    → dir_bytes (es ++ (e ∷ [])) ≡ dir_bytes es + added_dircount e
dir_bytes-snoc [] e = omega arith
dir_bytes-snoc (x ∷ es) e = omega (arith, dir_bytes-snoc es e)

module _ (dircount maxcount : ℕ) where
  pub record IsCounted (b : BoundedEntryPlusList) : Type 0 where
    pub fits : Fits entryplus3_codec maxcount b.entries
    pub limit : b.dircount ≡ dircount
    pub exact : b.accumulated_dircount ≡ dir_bytes b.entries.list
    pub within : b.accumulated_dircount ≤ dircount

  pub new-IsCounted : IsCounted (new dircount maxcount)
  unfolding new Bounded.new
  new-IsCounted = record {
    fits = new-Fits entryplus3_codec maxcount;
    limit = refl;
    exact = refl;
    within = omega arith;
  }

  counted-IsCounted :
      (e : Entryplus3) (b : BoundedEntryPlusList) (r : Result (Unit {0}) Entryplus3)
      (entries : BoundedList Entryplus3)
      → IsCounted b
      → b.accumulated_dircount + added_dircount e ≤ dircount
      → Pushed entryplus3_codec e b.entries r entries
      → Fits entryplus3_codec maxcount entries
      → IsCounted (counted b (added_dircount e) (r, entries)).1
  counted-IsCounted e b (ok done) entries v le (grown, _) f = record {
    fits = f;
    limit = v.limit;
    exact = rw grown (omega (arith, v.exact, dir_bytes-snoc b.entries.list e));
    within = le;
  }
  counted-IsCounted e b (err refused) entries v le (_, same, _) f = record {
    fits = f;
    limit = v.limit;
    exact = rw same v.exact;
    within = v.within;
  }

  pub try_push-IsCounted :
      (e : Entryplus3) (b : BoundedEntryPlusList) → IsCounted b → IsCounted (try_push e b).1
  unfolding try_push
  try_push-IsCounted e b v =
      elim (Bool-cases (ltb b.dircount (b.accumulated_dircount + added_dircount e))) [
        | inl full ↦ rw (full, try_push) v
        | inr free ↦
            let (pushed, _) = try_push-Pushed entryplus3_codec e b.entries v.fits.0 in
            rw (free, try_push)
              (counted-IsCounted e b _ _ v (ground (arith, v.limit)) pushed
                (try_push-Fits entryplus3_codec maxcount e b.entries v.fits))
      ]

  counted-room :
      (e : Entryplus3) (b : BoundedEntryPlusList) (r : Result (Unit {0}) Entryplus3)
      (entries : BoundedList Entryplus3)
      → (r ≡ ok tt
          → room entryplus3_codec maxcount entries < room entryplus3_codec maxcount b.entries)
      → (counted b (added_dircount e) (r, entries)).0 ≡ ok tt
      → room entryplus3_codec maxcount (counted b (added_dircount e) (r, entries)).1.entries
        < room entryplus3_codec maxcount b.entries
  counted-room e b (ok done) entries less h = less refl
  counted-room e b (err refused) entries less h = absurd (cc)

  pub try_push-less :
      (e : Entryplus3) (b : BoundedEntryPlusList)
      → IsCounted b
      → (try_push e b).0 ≡ ok tt
      → room entryplus3_codec maxcount (try_push e b).1.entries
        < room entryplus3_codec maxcount b.entries
  unfolding try_push
  try_push-less e b v h =
      elim (Bool-cases (ltb b.dircount (b.accumulated_dircount + added_dircount e))) [
        | inl full ↦ let h' = rw (full, try_push) at h in absurd (cc)
        | inr free ↦
            let h' = rw (free, try_push) at h in
            rw (free, try_push)
              (counted-room e b _ _ (try_push-room entryplus3_codec maxcount e b.entries v.fits) h')
      ]
