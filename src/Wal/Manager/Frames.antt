-- ===== src/Wal/Manager/Frames.antt =====
-- A log file that holds the frames of some records is read back as those records.
use deltabase_c.Prelude.{
  ℕ, suc, zero, ◌+◌, ◌≤◌, ◌<◌, ◌≡◌, refl, ap, ◌∙◌, List, [], ◌∷◌, ◌++◌, arith, ltb, false, lt→ltb,
  length, flat_map, All, append_assoc, length-append, length-drop, drop,
}
use deltabase_c.Stream.Word.{IsU64, le_bytes, length-le_bytes}
use deltabase_c.Stream.{ReadOnlyMemoryStream, open_stream, remaining, fits, behind}
use deltabase_c.Types.WalLog.{WalRecord, IsWalRecord}
use deltabase_c.Wal.Locals.{Locals, IsLocals, word_part}
use deltabase_c.Wal.Serializer.{serialize}
use deltabase_c.Wal.Serializer.RoundTrip.{deserialize-serialize}
use deltabase_c.Wal.Manager.{logs, add_log, frame, read_frames, read_logs_from_file}

-- A record in range whose serialized size a `uint64_t` holds.
pub record IsStorable (r : WalRecord) : Type 0 where
  pub record_fits : IsWalRecord r
  pub size_fits : IsU64 (length (serialize r).buffer)

-- What the uninitialised locals of a reading loop hold.
pub record Uninitialised : Type 0 where
  pub locals : Locals
  pub record_size : List ℕ

pub record IsUninitialised (u : Uninitialised) : Type 0 where
  pub locals : IsLocals u.locals
  pub record_size : length u.record_size ≡ 8

not_ltb : (a b : ℕ) → b ≤ a → ltb a b ≡ false
not_ltb a b h = ground arith

length-frame : (r : WalRecord) → 8 ≤ length (frame r)
unfolding frame
length-frame r =
    let ser : List ℕ = (serialize r).buffer in
    omega (arith, length-append (le_bytes 8 (length ser)) ser, length-le_bytes 8 (length ser))

module _ (u : Uninitialised) (hu : IsUninitialised u) where
  read_frame :
      (fuel : ℕ) (s : ReadOnlyMemoryStream) (r : WalRecord) (rest : List ℕ)
      → IsStorable r
      → s.position ≤ length s.buffer
      → drop s.position s.buffer ≡ frame r ++ rest
      → read_frames u.locals u.record_size (suc fuel) s
        ≡ add_log r (
            read_frames u.locals u.record_size fuel
              (record s { position = s.position + length (frame r) }))
  unfolding read_frames frame remaining
  read_frame fuel s r rest h p e =
      let ser : List ℕ = (serialize r).buffer in
      let w : List ℕ = le_bytes 8 (length ser) in
      let e' : drop s.position s.buffer ≡ w ++ (ser ++ rest) = e ∙ append_assoc w ser rest in
      let s' : ReadOnlyMemoryStream = record s { position = s.position + length w } in
      let p' : s'.position ≤ length s.buffer = fits s w (ser ++ rest) p e' in
      let e'' : drop s'.position s.buffer ≡ ser ++ rest = behind s w (ser ++ rest) e' in
      let room : s'.position + length ser ≤ length s.buffer = fits s' ser rest p' e'' in
      let eight : length w ≡ 8 = length-le_bytes 8 (length ser) in
      let z : s.position + length w + length ser ≡ s.position + length (w ++ ser) =
        omega (arith, length-append w ser) in
      rw (lt→ltb 0 (remaining s) (omega (arith, eight, p')), read_frames)
        (rw (
          (word_part (length ser) u.record_size hu.record_size h.size_fits).at s (ser ++ rest) p e',
          not_ltb (remaining s') (length ser) (omega (arith, room)),
          (deserialize-serialize u.locals r hu.locals h.record_fits).at s' rest p' e'',
          z,
        ))

  read_frames_lem :
      (fuel : ℕ) (s : ReadOnlyMemoryStream) (rs : List WalRecord)
      → All IsStorable rs
      → s.position ≤ length s.buffer
      → drop s.position s.buffer ≡ flat_map frame rs
      → remaining s < fuel
      → read_frames u.locals u.record_size fuel s ≡ logs rs
  unfolding remaining add_log read_frames
  read_frames_lem zero s rs h p e f = absurd (omega arith)
  read_frames_lem (suc fuel) s [] h p e f =
      let none_left : remaining s ≡ 0 =
        omega (arith, ap length e, length-drop s.position s.buffer) in
      rw (not_ltb 0 (remaining s) (omega arith), read_frames)
  read_frames_lem (suc fuel) s (r ∷ rs) h p e f =
      let s' : ReadOnlyMemoryStream = record s { position = s.position + length (frame r) } in
      read_frame fuel s r (flat_map frame rs) h.0 p e
      ∙ ap (add_log r) (
          read_frames_lem fuel s' rs h.1 (fits s (frame r) (flat_map frame rs) p e)
            (behind s (frame r) (flat_map frame rs) e)
            (omega (arith, length-frame r, f, fits s (frame r) (flat_map frame rs) p e)))

  pub read_logs_from_file-frames :
      (rs : List WalRecord)
      → All IsStorable rs
      → read_logs_from_file u.locals u.record_size (flat_map frame rs) ≡ logs rs
  unfolding read_logs_from_file open_stream remaining
  read_logs_from_file-frames rs h =
      read_frames_lem (length (flat_map frame rs) + 1) (open_stream (flat_map frame rs)) rs h
        (omega arith) refl (omega arith)
