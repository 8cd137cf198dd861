-- ===== src/Packet/Bytes.antt =====
-- The memory layout that src/packet.cpp relies on: little-endian words, wchar_t of two bytes, GUIDs
-- of sixteen. A byte is a number below 256.
use directplay_lite.Common.{
  ℕ, zero, suc, ◌+◌, ◌*◌, ◌/◌, ◌%◌, ◌^◌, ◌<◌, ◌≡◌, refl, List, [], ◌∷◌, arith, length, All,
}

abbrev pub IsByte : ℕ → Type 0
IsByte b = b < 256

-- The `w` low bytes of a number, lowest first.
unfoldable pub le_bytes : ℕ → ℕ → List ℕ
le_bytes zero v = []
le_bytes (suc w) v = v % 256 ∷ le_bytes w (v / 256)

unfoldable pub le_value : List ℕ → ℕ
le_value [] = 0
le_value (b ∷ bs) = b + 256 * le_value bs

-- The two-byte units of a wide string, and back.
unfoldable pub wide_bytes : List ℕ → List ℕ
wide_bytes [] = []
wide_bytes (c ∷ cs) = c % 256 ∷ c / 256 % 256 ∷ wide_bytes cs

unfoldable pub wide_chars : List ℕ → List ℕ
wide_chars [] = []
wide_chars (a ∷ []) = []
wide_chars (a ∷ b ∷ bs) = (a + 256 * b) ∷ wide_chars bs

pub length-le_bytes : (w v : ℕ) → length (le_bytes w v) ≡ w
unfolding le_bytes
length-le_bytes zero v = refl
length-le_bytes (suc w) v = omega (arith, length-le_bytes w (v / 256))

pub le_value-le_bytes : (v : ℕ) → v < 2 ^ 32 → le_value (le_bytes 4 v) ≡ v
unfolding le_value le_bytes
le_value-le_bytes v h = omega arith

pub le_value-lt : (bs : List ℕ) → All IsByte bs → length bs ≡ 4 → le_value bs < 2 ^ 32
unfolding le_value
le_value-lt [] h e = omega arith
le_value-lt (a ∷ []) h e = absurd (omega arith)
le_value-lt (a ∷ b ∷ []) h e = absurd (omega arith)
le_value-lt (a ∷ b ∷ c ∷ []) h e = absurd (omega arith)
le_value-lt (a ∷ b ∷ c ∷ d ∷ []) h e = omega arith
le_value-lt (a ∷ b ∷ c ∷ d ∷ x ∷ bs) h e = absurd (omega arith)

pub length-wide_bytes : (cs : List ℕ) → length (wide_bytes cs) ≡ 2 * length cs
unfolding wide_bytes
length-wide_bytes [] = refl
length-wide_bytes (c ∷ cs) = omega (arith, length-wide_bytes cs)

pub wide_chars-wide_bytes :
    (cs : List ℕ) → All (λ c. c < 2 ^ 16) cs → wide_chars (wide_bytes cs) ≡ cs
unfolding wide_chars wide_bytes
wide_chars-wide_bytes [] h = refl
wide_chars-wide_bytes (c ∷ cs) h = ground (arith, wide_chars-wide_bytes cs h.1)
