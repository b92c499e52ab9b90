-- ===== src/Compression/Outcome.antt =====
-- The shape of every `append`: whether there was room, the new state, and the buffer.
use memseries.Base.{Bool, true, false, Option, some, if◌then◌else◌, ◌≡◌, refl}

-- A call that reports success took the branch that had room.
pub had_room {ℓ κ} :
    {S : Type ℓ} {T : Type κ} (full : Bool) (s₀ s s' : S) (t₀ t t' : T)
    → ◌≡◌ {A = Option (Bool × S × T)}
        (some (if full then (false, s₀, t₀) else (true, s, t)))
        (some (true, s', t'))
    → (full ≡ false) × (s ≡ s') × (t ≡ t')
had_room true s₀ s s' t₀ t t' e = cc
had_room false s₀ s s' t₀ t t' e = (refl, cc, cc)
