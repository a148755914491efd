-- ===== src/Persist/Wal/Read.antt =====
-- `read_and_scan` of src/persist/wal.rs.
use orpheusgraph.Prelude.{none, some}
use orpheusgraph.Persist.Bytes.{Bytes}
use orpheusgraph.Persist.Crc.{Crc32}
use orpheusgraph.Persist.Error.{PersistError, Result, err}
use orpheusgraph.Persist.Vfs.{VfsFile}
use orpheusgraph.Persist.Wal.Frame.{Postcard, ScanResult, scan_wal_bytes}

module _ {E : Type 0} ⦃crc : Crc32⦄ ⦃pc : Postcard⦄ where
  -- The scan has fuel for any bytes (`scan_wal_bytes-IsWithin`), so the first case is never taken.
  unfoldable pub scanned : Bytes → Result E ScanResult
  scanned buf = elim (scan_wal_bytes buf) [
    | none ↦ err (PersistError.corrupt "the scan does not end")
    | some r ↦ r
  ]

module _ {E F : Type 0} ⦃crc : Crc32⦄ ⦃pc : Postcard⦄ ⦃vf : VfsFile E F⦄ where
  unfoldable pub read_and_scan : F → Result E ScanResult × F
  read_and_scan file =
      let (e1, f1) = vf.seek file 0 in
      elim e1 [
        | some e ↦ (err (PersistError.io e), f1)
        | none ↦
            let (e2, (buf, f2)) = vf.read_to_end f1 in
            elim e2 [ some e ↦ (err (PersistError.io e), f2) | none ↦ (scanned buf, f2) ]
      ]
