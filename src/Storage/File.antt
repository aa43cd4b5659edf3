-- ===== src/Storage/File.antt =====
-- `TraceDb::save` and `TraceDb::load`. The file system and the encoding are not this program's:
-- they are the record `Files`.
use tiny_binary_debugger.Base.{◌≡◌, ◌++◌, Result, ok, err, map_err}
use tiny_binary_debugger.BTreeMap.{BTreeMap}
use tiny_binary_debugger.Text.{Text, codes}
use tiny_binary_debugger.Storage.{TraceEntry, TraceDb}

-- `std::fs::read` and `std::fs::write`, whose errors carry their message, over the state of the
-- disk, and `bincode::serialize` and `bincode::deserialize` at `BTreeMap<u64, TraceEntry>`.
pub record Files : Type 1 where
  pub Disk : Type 0
  pub Bytes : Type 0
  pub read : Disk → Text → Result Bytes
  pub write : Disk → Text → Bytes → Disk × Result (Unit {0})
  pub serialize : BTreeMap TraceEntry → Result Bytes
  pub deserialize : Bytes → Result (BTreeMap TraceEntry)

module _ (f : Files) where
  open f use {Disk, Bytes, read, write, serialize, deserialize}

  unfoldable pub write_data : Disk → Text → Result Bytes → Disk × Result (Unit {0})
  write_data disk path (err e) = (disk, err e)
  write_data disk path (ok bytes) =
      let (disk', written) = write disk path bytes in
      (disk', map_err (λ e. codes "Write failed: " ++ e) written)

  unfoldable pub save : Disk → TraceDb → Disk × Result (Unit {0})
  unfolding write_data
  save disk db =
      write_data disk db.path
        (map_err (λ e. codes "Serialize failed: " ++ e) (serialize db.entries))

  unfoldable pub decoded : Text → Result (BTreeMap TraceEntry) → Result TraceDb
  decoded path (err e) = err e
  decoded path (ok entries) = ok (record { entries = entries; path = path })

  unfoldable pub load_data : Text → Result Bytes → Result TraceDb
  unfolding decoded
  load_data path (err e) = err e
  load_data path (ok bytes) =
      decoded path (map_err (λ e. codes "Deserialize failed: " ++ e) (deserialize bytes))

  unfoldable pub load : Disk → Text → Result TraceDb
  unfolding load_data
  load disk path = load_data path (map_err (λ e. codes "Read failed: " ++ e) (read disk path))

-- A file reads back as it was written, and an encoding decodes to what was encoded.
pub record IsFaithful (f : Files) : Type 0 where
  pub read-write :
      (disk disk' : f.Disk) (path : Text) (bytes : f.Bytes)
      → f.write disk path bytes ≡ (disk', ok tt)
      → f.read disk' path ≡ ok bytes
  pub deserialize-serialize :
      (m : BTreeMap TraceEntry) (bytes : f.Bytes)
      → f.serialize m ≡ ok bytes
      → f.deserialize bytes ≡ ok m
