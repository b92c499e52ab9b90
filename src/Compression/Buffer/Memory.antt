-- ===== src/Compression/Buffer/Memory.antt =====
-- The memory of the buffer, in the order of falling addresses.
use memseries.Base.{ℕ, zero, suc, ◌+◌, ◌-◌, ◌/◌, ◌%◌, ◌^◌, ◌≤◌, ◌<◌}
use memseries.Base.{◌≡◌, ◌≢◌, refl, ap, ◌∙◌, arith, List, [], ◌∷◌, ◌++◌, some}
use memseries.Base.{lt→ltb}
use native.Mathlib.Nat.{sub-zero, pow-suc}
use memseries.Base.{get_elem?, set, length, length-append, length-set}
use memseries.Base.{get_elem?-set_self, get_elem?-set_ne}
use memseries.Compression.Buffer.{store, load}

-- A value of `n` bytes, highest first.
unfoldable pub bytes : ℕ → ℕ → List ℕ
bytes zero v = []
bytes (suc n) v = bytes n (v / 256) ++ (v % 256 ∷ [])

-- The memory after `xs` is put below the address `p`, downwards.
unfoldable pub put_mem : List ℕ → ℕ → List ℕ → List ℕ
put_mem [] p m = m
put_mem (x ∷ xs) p m = put_mem xs (p - 1) (set m (p - 1) x)

-- `xs` stands below the address `p`, downwards.
abbrev pub Holds : List ℕ → ℕ → List ℕ → Type 0
Holds m p [] = Unit {0}
Holds m p (x ∷ xs) = (1 ≤ p) × (get_elem? m (p - 1) ≡ some x) × Holds m (p - 1) xs

pub length-bytes : (n v : ℕ) → length (bytes n v) ≡ n
unfolding bytes
length-bytes zero v = refl
length-bytes (suc n) v =
    omega (arith, length-append {0} (bytes n (v / 256)) (v % 256 ∷ []), length-bytes n (v / 256))

pub length-put_mem : (xs : List ℕ) (p : ℕ) (m : List ℕ) → length (put_mem xs p m) ≡ length m
unfolding put_mem
length-put_mem [] p m = refl
length-put_mem (x ∷ xs) p m = length-put_mem xs (p - 1) (set m (p - 1) x) ∙ length-set m (p - 1) x

pub put_mem-append :
    (xs ys : List ℕ) (p : ℕ) (m : List ℕ)
    → put_mem (xs ++ ys) p m ≡ put_mem ys (p - length xs) (put_mem xs p m)
unfolding put_mem
put_mem-append [] ys p m = ground arith
put_mem-append (x ∷ xs) ys p m = ground (arith, put_mem-append xs ys (p - 1) (set m (p - 1) x))

set_comm : (m : List ℕ) (i j x y : ℕ) → i ≢ j → set (set m i x) j y ≡ set (set m j y) i x
set_comm [] i j x y h = refl
set_comm (z ∷ m) zero zero x y h = absurd (h refl)
set_comm (z ∷ m) zero (suc j) x y h = refl
set_comm (z ∷ m) (suc i) zero x y h = refl
set_comm (z ∷ m) (suc i) (suc j) x y h = ap (λ t. z ∷ t) (set_comm m i j x y (λ e. h (ap suc e)))

-- Memory at other addresses is left alone, and may be written before or after.
get_elem?-put_mem :
    (xs : List ℕ) (p j : ℕ) (m : List ℕ)
    → p ≤ j
    → length xs ≤ p
    → get_elem? (put_mem xs p m) j ≡ get_elem? m j
unfolding put_mem
get_elem?-put_mem [] p j m h g = refl
get_elem?-put_mem (x ∷ xs) p j m h g =
    get_elem?-put_mem xs (p - 1) j (set m (p - 1) x) (omega arith) (omega arith)
    ∙ get_elem?-set_ne m {i = p - 1} {j = j} x (omega arith)

put_mem-set :
    (xs : List ℕ) (p a x : ℕ) (m : List ℕ)
    → a + length xs < p
    → put_mem xs p (set m a x) ≡ set (put_mem xs p m) a x
unfolding put_mem
put_mem-set [] p a x m h = refl
put_mem-set (y ∷ ys) p a x m h =
    ap (put_mem ys (p - 1)) (set_comm m a (p - 1) x y (omega arith))
    ∙ put_mem-set ys (p - 1) a x (set m (p - 1) y) (omega arith)

-- The lowest byte, stored first, is the last one put.
fill_last :
    (n a v : ℕ) (m : List ℕ)
    → put_mem (bytes n (v / 256)) (a + 1 + n) (set m a (v % 256))
      ≡ put_mem (bytes n (v / 256) ++ (v % 256 ∷ [])) (a + suc n) m
fill_last n a v m = ground (
  arith,
  length-bytes n (v / 256),
  put_mem-set (bytes n (v / 256)) (a + suc n) a (v % 256) m
      (omega (arith, length-bytes n (v / 256))),
  put_mem-append (bytes n (v / 256)) (v % 256 ∷ []) (a + suc n) m,
  last,
)
  where
    last :
        put_mem
          (v % 256 ∷ [])
          (a + suc n - length (bytes n (v / 256)))
          (put_mem (bytes n (v / 256)) (a + suc n) m)
        ≡ set (put_mem (bytes n (v / 256)) (a + suc n) m) a (v % 256)
    last = rw length-bytes (unfold put_mem in ground arith)

-- A store of `n` bytes, lowest first and upwards, puts them highest first and downwards.
pub store-put_mem :
    (n a v : ℕ) (m : List ℕ)
    → a + n ≤ length m
    → store n a v m ≡ some (put_mem (bytes n v) (a + n) m)
unfolding store bytes
store-put_mem zero a v m h = unfold put_mem in refl
store-put_mem (suc n) a v m h = rw (lt→ltb a (length m) (omega arith)) (
    store-put_mem n (a + 1) (v / 256) (set m a (v % 256)) (rw length-set (omega arith))
    ∙ ap some (fill_last n a v m))

sub_suc : (p k : ℕ) → p - suc k ≡ p - 1 - k
sub_suc p k = omega arith

pub Holds-append :
    (xs ys : List ℕ) (p : ℕ) (m : List ℕ)
    → Holds m p (xs ++ ys)
    → Holds m p xs × Holds m (p - length xs) ys
Holds-append [] ys p m h = (tt, rw sub-zero h)
Holds-append (x ∷ xs) ys p m (lo, here, below) =
    let (front, back) = Holds-append xs ys (p - 1) m below in
    ((lo, here, front), rw (sub_suc p (length xs)) back)

pub Holds-put_mem :
    (xs : List ℕ) (p : ℕ) (m : List ℕ) → length xs ≤ p → p ≤ length m → Holds (put_mem xs p m) p xs
unfolding put_mem
Holds-put_mem [] p m h g = tt
Holds-put_mem (x ∷ xs) p m h g = (
  omega arith,
  get_elem?-put_mem xs (p - 1) (p - 1) (set m (p - 1) x) (omega arith) (omega arith)
      ∙ get_elem?-set_self m (p - 1) x (omega arith),
  Holds-put_mem xs (p - 1) (set m (p - 1) x) (omega arith) (rw length-set (omega arith)),
)

-- What stands above the position outlives later writes.
pub Holds-put_mem_below :
    (xs ys : List ℕ) (p q : ℕ) (m : List ℕ)
    → q + length xs ≤ p
    → length ys ≤ q
    → Holds m p xs
    → Holds (put_mem ys q m) p xs
Holds-put_mem_below [] ys p q m h g k = tt
Holds-put_mem_below (x ∷ xs) ys p q m h g (lo, here, below) = (
  lo,
  get_elem?-put_mem ys q (p - 1) m (omega arith) g ∙ here,
  Holds-put_mem_below xs ys (p - 1) q m (omega arith) g below,
)

-- A load of `n` bytes, lowest first and upwards, reads what stands highest first and downwards.
pub load-Holds :
    (n a v : ℕ) (m : List ℕ) → v < 256 ^ n → Holds m (a + n) (bytes n v) → load n a m ≡ some v
unfolding load bytes
load-Holds zero a v m fits h = ground arith
load-Holds (suc n) a v m fits h =
    let (front, back) = Holds-append (bytes n (v / 256)) (v % 256 ∷ []) (a + suc n) m h in
    let shift : a + suc n ≡ a + 1 + n = omega arith in
    let last : a + suc n - length (bytes n (v / 256)) - 1 ≡ a =
      omega (arith, length-bytes n (v / 256)) in
    let rest : load n (a + 1) m ≡ some (v / 256) =
      load-Holds n (a + 1) (v / 256) m (omega (arith, pow-suc 256 n)) (rw shift at front) in
    let here : get_elem? m a ≡ some (v % 256) = rw last at back.1 in rw (here, rest) (ground arith)

pub length-le_Holds : (xs : List ℕ) (p : ℕ) (m : List ℕ) → Holds m p xs → length xs ≤ p
length-le_Holds [] p m h = omega arith
length-le_Holds (x ∷ xs) p m (lo, here, below) = omega (arith, length-le_Holds xs (p - 1) m below)
