-- ===== src/Compression/Facade/Series.antt =====
-- A series of measurements, written through the facade and read back.
use memseries.Base.{ℕ, zero, suc, ◌^◌, ◌≤◌, ◌<◌, ◌≡◌, arith, ap, sym, subst, ◌∙◌, refl}
use memseries.Base.{Bool, Bool-cases, true, false, if◌then◌else◌, Option, none, some}
use memseries.Base.{◌>>=◌, bind_some, List, [], ◌∷◌, ◌++◌, length, length-append, map, inl, inr}
use mathlib.Core.List.{append_assoc}
use memseries.Meas.{Meas, IsMeas}
use memseries.Compression.Buffer.{ByteBuffer, create, set_pos}
use memseries.Compression.Buffer.Stream.{
  put, put_nil, skip, skip-IsBuffer, skip-Ahead_all, Ahead, IsBuffer, put-append, put_pos,
  length-put_mem, rewound_Ahead, rewound_IsBuffer,
}
use memseries.Compression.Delta
use memseries.Compression.Xor
use memseries.Compression.Flag
use memseries.Compression.Flag.{FlagDeCompressor}
use memseries.Compression.Facade.{
  CompressedWriter, CompressedReader, append, read, new_writer, new_reader,
}
use memseries.Compression.Facade.Stream.{
  Last, IsLast, after, after-IsLast, IsExact, step_bytes, last_of, IsStarted, append_lem,
}
use memseries.Compression.Facade.Reading.{reader, read_lem}

-- A caller that appends until one fails, and one that reads `n` times.
unfoldable pub append_all : Bool → List Meas → CompressedWriter → Option CompressedWriter
append_all checks [] w = some w
append_all checks (m ∷ ms) w = do
  (done, w') ← append checks m w
  let rest = append_all checks ms w'
  if done then rest else none

unfoldable pub read_all : Bool → ℕ → CompressedReader → Option (List Meas)
read_all checks zero r = some []
read_all checks (suc n) r = do (m, r') ← read checks r; ms ← read_all checks n r'; some (m ∷ ms)

-- The reader gives every measurement the id of the first.
abbrev pub with_id : ℕ → Meas → Meas
with_id id m = record m { id = id }

-- Each measurement can be stored without loss behind the one before it.
abbrev pub AreExact : Last → List Meas → Type 0
AreExact l [] = Unit {0}
AreExact l (m ∷ ms) = IsExact l m × AreExact (after l m) ms

unfoldable pub series_bytes : Last → List Meas → List ℕ
series_bytes l [] = []
series_bytes l (m ∷ ms) = step_bytes l m ++ series_bytes (after l m) ms

pub append_all-cons :
    (checks : Bool) (m : Meas) (ms : List Meas) (w w₁ : CompressedWriter)
    → append checks m w ≡ some (true, w₁)
    → append_all checks (m ∷ ms) w ≡ append_all checks ms w₁
unfolding append_all
append_all-cons checks m ms w w₁ e = rw e refl

pub append_all_inv :
    (checks : Bool) (m : Meas) (ms : List Meas) (w w' : CompressedWriter)
    → append_all checks (m ∷ ms) w ≡ some w'
    → (w₁ : CompressedWriter) × (append checks m w ≡ some (true, w₁))
      × (append_all checks ms w₁ ≡ some w')
unfolding append_all
append_all_inv checks m ms w w' h =
    let ((done, w₁), e, h₁) = bind_some (append checks m w) go_on h in
    elim (Bool-cases done) [
      | inl yes' ↦ (
        w₁,
        e ∙ ap (λ t. some (t, w₁)) yes',
        subst (λ t. (if t then append_all checks ms w₁ else none) ≡ some w') yes' h₁,
      )
      | inr no' ↦
          absurd
            (failed (subst (λ t. (if t then append_all checks ms w₁ else none) ≡ some w') no' h₁))
    ]
  where
    go_on : Bool × CompressedWriter → Option CompressedWriter
    go_on (done, w₁) = if done then append_all checks ms w₁ else none

    failed : ◌≡◌ {A = Option CompressedWriter} none (some w') → ⊥
    failed e = cc

end_writer :
    {w w' : CompressedWriter} → ◌≡◌ {A = Option CompressedWriter} (some w) (some w') → w ≡ w'
end_writer e = cc

pub append_all-series_bytes :
    (checks : Bool) (ms : List Meas) (w w' : CompressedWriter)
    → IsStarted w
    → AreExact (last_of w) ms
    → append_all checks ms w ≡ some w'
    → (length (series_bytes (last_of w) ms) ≤ w.bb.pos)
      × (put (series_bytes (last_of w) ms) w.bb ≡ w'.bb)
      × IsStarted w'
unfolding append_all series_bytes
append_all-series_bytes checks [] w w' started exact h =
    (omega arith, put_nil w.bb ∙ cc, subst IsStarted (end_writer h) started)
append_all-series_bytes checks (m ∷ ms) w w' started (here, later) h =
    let (w₁, e, h₁) = append_all_inv checks m ms w w' h in
    let (room, put_one, kept, started₁) = append_lem checks m w started here w₁ e in
    let (room₁, put_rest, started') =
      append_all-series_bytes checks ms w₁ w' started₁ (subst (λ l. AreExact l ms) (sym kept) later)
        h₁ in
    let a : List ℕ = step_bytes (last_of w) m in
    let s : List ℕ = series_bytes (after (last_of w) m) ms in
    let same : series_bytes (last_of w₁) ms ≡ s = ap (λ l. series_bytes l ms) kept in
    (
      omega (
        arith,
        length-append {0} a s,
        put_pos a w.bb w₁.bb put_one,
        ap (length {0} {A = ℕ}) same,
      ),
      put-append a s w.bb ∙ ap (put s) put_one ∙ ap (λ t. put t w₁.bb) (sym same) ∙ put_rest,
      started',
    )

pub read_all-series_bytes :
    (checks : Bool) (ms : List Meas) (l : Last) (first : Meas) (fd : FlagDeCompressor)
    (rest : List ℕ) (b : ByteBuffer)
    → IsBuffer b
    → IsLast l
    → AreExact l ms
    → Ahead b (series_bytes l ms ++ rest)
    → read_all checks (length ms) (reader b first l fd) ≡ some (map (with_id first.id) ms)
unfolding read_all series_bytes
read_all-series_bytes checks [] l first fd rest b valid known exact ahead = refl
read_all-series_bytes checks (m ∷ ms) l first fd rest b valid known (here, later) ahead =
    let ahead' : Ahead b (step_bytes l m ++ (series_bytes (after l m) ms ++ rest)) =
      rw append_assoc at ahead in
    let n : ℕ = length (step_bytes l m) in
    rw
      (
        read_lem checks l m first fd (series_bytes (after l m) ms ++ rest) b valid known here
            ahead',
        read_all-series_bytes checks ms (after l m) first fd rest (skip n b)
            (skip-IsBuffer n b valid) (after-IsLast l m here.is_meas) later
            (skip-Ahead_all (step_bytes l m) (series_bytes (after l m) ms ++ rest) b ahead'),
      )
      refl

-- The first measurement is kept aside: it takes no room in the buffer.
abbrev pub start : Meas → Last
start first = record { time = first.time; delta = 0; value = first.value }

module _ (checks : Bool) (first : Meas) (b : ByteBuffer) (valid : IsBuffer b)
    (h : IsMeas first) where
  abbrev pub started_writer : CompressedWriter
  started_writer = record {
    bb = b;
    first = first;
    is_first = false;
    is_full = false;
    time_comp = record {
      is_first = false;
      first = first.time;
      prev_delta = 0;
      prev_time = first.time;
    };
    value_comp = record { is_first = false; first = first.value; prev_value = first.value };
    flag_comp = record { is_first = false; first = first.flag };
  }

  pub append_first : append checks first (new_writer b) ≡ some (true, started_writer)
  unfolding append new_writer Delta.append Xor.append Flag.append
  append_first = refl

  pub started_writer-IsStarted : IsStarted started_writer
  started_writer-IsStarted = record {
    writer = refl;
    time = refl;
    value = refl;
    flag = refl;
    buffer = valid;
    last = omega arith;
  }

pub create-IsBuffer : (mem : List ℕ) → 1 ≤ length mem → length mem < 2 ^ 32 → IsBuffer (create mem)
unfolding create
create-IsBuffer mem some_room fits = omega arith

first_writer :
    {a b : CompressedWriter}
    → ◌≡◌ {A = Option (Bool × CompressedWriter)} (some (true, a)) (some (true, b))
    → a ≡ b
first_writer h = cc

-- A buffer on the memory after the writes starts where the first one did.
pub rewound :
    (s mem : List ℕ)
    → create (put s (create mem)).mem ≡ set_pos (create mem).pos (put s (create mem))
unfolding create set_pos put
rewound s mem = rw length-put_mem refl

-- Whatever the room, if the appends of a first measurement and of further ones that AreExact to a
-- fresh buffer (of at least one and fewer than 2^32 bytes) all succeed, a reader on the memory
-- that they leave returns the further measurements in order, each with the id of the first.
pub read_all-append_all :
    (checks : Bool) (mem : List ℕ) (first : Meas) (ms : List Meas) (w : CompressedWriter)
    → 1 ≤ length mem
    → length mem < 2 ^ 32
    → IsMeas first
    → AreExact (start first) ms
    → append_all checks (first ∷ ms) (new_writer (create mem)) ≡ some w
    → read_all checks (length ms) (new_reader (create w.bb.mem) first)
      ≡ some (map (with_id first.id) ms)
read_all-append_all checks mem first ms w some_room fits h exact written =
    let b : ByteBuffer = create mem in
    let valid : IsBuffer b = create-IsBuffer mem some_room fits in
    let (w₁, e, rest) = append_all_inv checks first ms (new_writer b) w written in
    let begun : started_writer checks first b valid h ≡ w₁ =
      first_writer (sym (append_first checks first b valid h) ∙ e) in
    let s : List ℕ = series_bytes (start first) ms in
    let (room, buffer, started) =
      append_all-series_bytes checks ms (started_writer checks first b valid h) w
        (started_writer-IsStarted checks first b valid h) exact
        (subst (λ x. append_all checks ms x ≡ some w) (sym begun) rest) in
    subst
      (λ x.
        read_all checks (length ms) (new_reader (create x.mem) first)
        ≡ some (map (with_id first.id) ms))
      buffer
      (rw (rewound s mem) (
        unfold new_reader in
        (read_all-series_bytes checks ms (start first) first _ [] (set_pos b.pos (put s b))
          (rewound_IsBuffer s b valid room) (omega arith) exact (rewound_Ahead s b valid room))))
