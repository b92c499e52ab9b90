-- ===== src/Storage/Chunk/Compact.antt =====
-- storage/chunk.cpp: `Chunk::compact`, and a reader on what it leaves.
use memseries.Base.{ℕ, zero, suc, ◌+◌, ◌-◌, ◌^◌, ◌≤◌, ◌<◌, ◌≡◌, arith, refl, ap, sym, ◌∙◌, subst}
use memseries.Base.{Bool, some, get_elem?}
use memseries.Base.{List, [], ◌∷◌, ◌++◌, length, map, drop, length-drop}
use mathlib.Core.List.{append-nil}
use memseries.Meas.{Meas, IsMeas}
use memseries.Compression.Buffer.{ByteBuffer}
use memseries.Compression.Buffer as Buffer
use memseries.Compression.Buffer.Stream.{
  put, Holds, Holds-put_mem, IsBuffer, length-put_mem, put_pos,
}
use memseries.Compression.Facade.{CompressedWriter, new_writer, new_reader}
use memseries.Compression.Facade.Series.{
  AreExact, start, with_id, append_all, append_all-cons, append_all-series_bytes, read_all,
  read_all-series_bytes, series_bytes, append_first, create-IsBuffer, started_writer,
  started_writer-IsStarted,
}
use memseries.Storage.Chunk.{ChunkHeader, compact}

-- The header is that of a buffer of `size` bytes which is filled down to `bw_pos`.
module _ (hdr : ChunkHeader) (inside : hdr.bw_pos < hdr.size) (fits : hdr.size < 2 ^ 32) where
  pub compact_lem :
      (compact hdr).0 + (compact hdr).1.size ≡ hdr.size
      × ((compact hdr).0 ≡ hdr.bw_pos - 1)
      × ((compact hdr).1.bw_pos ≡ 0)
  unfolding compact
  compact_lem = ground arith

get_elem?-drop : (k i : ℕ) (m : List ℕ) → get_elem? (drop k m) i ≡ get_elem? m (k + i)
get_elem?-drop zero i m = ap (get_elem? m) (omega arith)
get_elem?-drop (suc k) i [] = refl
get_elem?-drop (suc k) i (x ∷ m) = get_elem?-drop k i m ∙ ap (get_elem? (x ∷ m)) shifted
  where
    shifted : suc (k + i) ≡ suc k + i
    shifted = omega arith

-- What stands above the bytes that are dropped still stands there.
Holds-drop :
    (xs : List ℕ) (k p : ℕ) (m : List ℕ)
    → k + length xs ≤ p
    → Holds m p xs
    → Holds (drop k m) (p - k) xs
Holds-drop [] k p m room h = tt
Holds-drop (x ∷ xs) k p m room (lo, here, below) =
    let place : k + (p - k - 1) ≡ p - 1 = omega arith in
    let next : p - 1 - k ≡ p - k - 1 = omega arith in
    (
      omega arith,
      get_elem?-drop k (p - k - 1) m ∙ ap (get_elem? m) place ∙ here,
      subst (λ q. Holds (drop k m) q xs) next (Holds-drop xs k (p - 1) m (omega arith) below),
    )

module _ (checks : Bool) (mem : List ℕ) (first : Meas) (ms : List Meas) (w : CompressedWriter)
    (hdr : ChunkHeader) (positive : 1 ≤ length mem) (fits : length mem < 2 ^ 32) (h : IsMeas first)
    (exact : AreExact (start first) ms)
    (written : append_all checks (first ∷ ms) (new_writer (Buffer.create mem)) ≡ some w)
    (size : hdr.size ≡ length mem) (at_pos : hdr.bw_pos ≡ w.bb.pos) where
  abbrev whole : ByteBuffer
  whole = Buffer.create mem

  abbrev s : List ℕ
  s = series_bytes (start first) ms

  valid : IsBuffer whole
  valid = create-IsBuffer mem positive fits

  run : (length s ≤ whole.pos) × (put s whole ≡ w.bb)
  run =
      let begun = append_first checks first whole valid h in
      let (room, buffer, started) =
        append_all-series_bytes checks ms (started_writer checks first whole valid h) w
          (started_writer-IsStarted checks first whole valid h) exact
          (sym (append_all-cons checks first ms (new_writer whole) _ begun) ∙ written) in
      (room, buffer)

  whole_pos : whole.pos ≡ length mem - 1
  whole_pos = unfold Buffer.create in omega arith

  length_mem : length w.bb.mem ≡ length mem
  length_mem =
      ap (λ (b : ByteBuffer). length b.mem) (sym (run.1))
      ∙ unfold put Buffer.create in length-put_mem s whole.pos whole.mem

  stands : Holds w.bb.mem whole.pos s
  stands =
      subst (λ (b : ByteBuffer). Holds b.mem whole.pos s) (run.1)
        (unfold put in
          (Holds-put_mem s whole.pos whole.mem (run.0)
            (omega (arith, valid.within, valid.capacity))))

  -- If a header has the size of a buffer (of at least one and fewer than 2^32 bytes) and the
  -- position at which the appends of a first measurement and of further ones that AreExact ended,
  -- then the memory without the bytes that compact skips has the size of the compacted header,
  -- and a reader on it returns the further measurements.
  pub read_all-compact :
      (length (drop (compact hdr).0 w.bb.mem) ≡ (compact hdr).1.size)
      × (read_all checks
            (length ms)
            (new_reader (Buffer.create (drop (compact hdr).0 w.bb.mem)) first)
          ≡ some (map (with_id first.id) ms))
  read_all-compact =
      let k : ℕ = (compact hdr).0 in
      let pos = put_pos s whole w.bb (run.1) in
      let sizes = compact_lem hdr (omega (arith, whole_pos, valid.within)) (omega arith) in
      let kept_size : length (drop k w.bb.mem) ≡ length mem - k =
        omega (arith, length-drop k w.bb.mem, length_mem) in
      let small : ByteBuffer = Buffer.create (drop k w.bb.mem) in
      let valid' = create-IsBuffer (drop k w.bb.mem) (omega (arith, whole_pos)) (omega arith) in
      let small_pos : whole.pos - k ≡ small.pos =
        unfold Buffer.create in omega (arith, whole_pos) in
      let below : Holds (drop k w.bb.mem) (whole.pos - k) s =
        Holds-drop s k whole.pos w.bb.mem (omega (arith, run.0)) stands in
      let ahead : Holds (drop k w.bb.mem) small.pos (s ++ []) =
        rw append-nil (subst (λ (p : ℕ). Holds (drop k w.bb.mem) p s) small_pos below) in
      (
        omega arith,
        unfold new_reader in
            (read_all-series_bytes checks ms (start first) first _ [] small valid' (omega arith)
              exact (unfold Buffer.create in ahead)),
      )
