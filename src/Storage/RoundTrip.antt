-- ===== src/Storage/RoundTrip.antt =====
-- Saving and loading a trace, and what each failure reports.
use tiny_binary_debugger.Base.{inr, inl, ◌⊎◌, map_err, ◌≡◌, refl, ◌++◌, Result, ok, err, arith}
use tiny_binary_debugger.Text.{Text, codes}
use tiny_binary_debugger.Storage.{TraceEntry, BTreeMap, TraceDb}
use tiny_binary_debugger.Storage.File.{
  Files, IsFaithful, write_data, load_data, decoded, save, load,
}

map_err-ok {ℓ} :
    {A : Type ℓ} (g : Text → Text) (r : Result A) {a : A} → map_err g r ≡ ok a → r ≡ ok a
map_err-ok g (ok a) h = h
map_err-ok g (err e) h = cc

module _ (f : Files) where
  open f use {Disk, Bytes, read, write, serialize, deserialize}

  written :
      (disk disk' : Disk) (path : Text) (r : Result Bytes)
      → write_data f disk path r ≡ (disk', ok tt)
      → (bytes : Bytes) × (r ≡ ok bytes) × (write disk path bytes ≡ (disk', ok tt))
  unfolding write_data
  written disk disk' path (err e) h = absurd (err_pair h)
    where
      err_pair : ◌≡◌ {A = Disk × Result (Unit {0})} (disk, err e) (disk', ok tt) → ⊥
      err_pair p = grind arith
  written disk disk' path (ok bytes) h = (bytes, refl, unwrapped (write disk path bytes) h)
    where
      unwrapped :
          (w : Disk × Result (Unit {0}))
          → ◌≡◌ {A = Disk × Result (Unit {0})}
              (w.0, (elim w.1 [ ok u ↦ ok u | err e ↦ err (codes "Write failed: " ++ e) ]))
              (disk', ok tt)
          → w ≡ (disk', ok tt)
      unwrapped w p = ground arith

  -- What was saved is loaded again from where it was saved, whole: entries and path. The disk is to
  -- read back what was written, and the decoding to invert the encoding.
  pub load-save :
      IsFaithful f
      → (disk disk' : Disk) (db : TraceDb) → save f disk db ≡ (disk', ok tt)
      → load f disk' db.path ≡ ok db
  unfolding save load load_data
  load-save faithful disk disk' db h =
      let (bytes, encoded, stored) = written disk disk' db.path _ h in
      let decoded_lem =
        faithful.deserialize-serialize db.entries bytes
          (map_err-ok _ (serialize db.entries) encoded) in
      rw (faithful.read-write disk disk' db.path bytes stored, decoded_lem, decoded) refl

  save_failed :
      (disk disk' : Disk) (path msg : Text) (r : Result Bytes)
      → write_data f disk path (map_err (λ e. codes "Serialize failed: " ++ e) r) ≡ (disk', err msg)
      → ((e : Text) × (r ≡ err e) × (msg ≡ codes "Serialize failed: " ++ e) × (disk' ≡ disk))
        ⊎ ((bytes : Bytes) × (e : Text) × (r ≡ ok bytes)
            × (write disk path bytes ≡ (disk', err e))
            × (msg ≡ codes "Write failed: " ++ e))
  unfolding write_data
  save_failed disk disk' path msg (err e) h = inl (e, refl, ground arith, ground arith)
  save_failed disk disk' path msg (ok bytes) h =
      let (e, w, m) = unwrapped (write disk path bytes) h in inr (bytes, e, refl, w, m)
    where
      unwrapped :
          (w : Disk × Result (Unit {0}))
          → ◌≡◌ {A = Disk × Result (Unit {0})}
              (w.0, map_err (λ e. codes "Write failed: " ++ e) w.1)
              (disk', err msg)
          → (e : Text) × (w ≡ (disk', err e)) × (msg ≡ codes "Write failed: " ++ e)
      unwrapped (d, ok u) p = absurd (ground arith)
      unwrapped (d, err e) p = (e, ground arith, ground arith)

  -- A `save` that fails reports either the message of the encoding, and then the disk is as it was,
  -- or the message of the write of the encoded entries.
  pub save-error :
      (disk disk' : Disk) (db : TraceDb) (msg : Text)
      → save f disk db ≡ (disk', err msg)
      → ((e : Text) × (serialize db.entries ≡ err e)
          × (msg ≡ codes "Serialize failed: " ++ e)
          × (disk' ≡ disk))
        ⊎ ((bytes : Bytes) × (e : Text) × (serialize db.entries ≡ ok bytes)
            × (write disk db.path bytes ≡ (disk', err e))
            × (msg ≡ codes "Write failed: " ++ e))
  unfolding save
  save-error disk disk' db msg h = save_failed disk disk' db.path msg (serialize db.entries) h

  load_failed :
      (path msg : Text) (r : Result Bytes)
      → load_data f path (map_err (λ e. codes "Read failed: " ++ e) r) ≡ err msg
      → ((e : Text) × (r ≡ err e) × (msg ≡ codes "Read failed: " ++ e))
        ⊎ ((bytes : Bytes) × (e : Text) × (r ≡ ok bytes)
            × (deserialize bytes ≡ err e)
            × (msg ≡ codes "Deserialize failed: " ++ e))
  unfolding load_data
  load_failed path msg (err e) h = inl (e, refl, ground arith)
  load_failed path msg (ok bytes) h =
      let (e, d, m) = undecoded (deserialize bytes) h in inr (bytes, e, refl, d, m)
    where
      undecoded :
          (r : Result (BTreeMap TraceEntry))
          → decoded f path (map_err (λ e. codes "Deserialize failed: " ++ e) r) ≡ err msg
          → (e : Text) × (r ≡ err e) × (msg ≡ codes "Deserialize failed: " ++ e)
      undecoded (ok m) p = cc
      undecoded (err e) p = (e, refl, ground arith)

  -- A `load` that fails reports either the message of the read, or the message of the decoding of
  -- what was read.
  pub load-error :
      (disk : Disk) (path msg : Text)
      → load f disk path ≡ err msg
      → ((e : Text) × (read disk path ≡ err e) × (msg ≡ codes "Read failed: " ++ e))
        ⊎ ((bytes : Bytes) × (e : Text) × (read disk path ≡ ok bytes)
            × (deserialize bytes ≡ err e)
            × (msg ≡ codes "Deserialize failed: " ++ e))
  unfolding load
  load-error disk path msg h = load_failed path msg (read disk path) h
