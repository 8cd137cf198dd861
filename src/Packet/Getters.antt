-- ===== src/Packet/Getters.antt =====
-- The getters of PacketDeserialiser on any packet: src/packet.cpp.
use directplay_lite.Common.{
  ℕ, zero, suc, ◌≤◌, ◌<◌, ◌≡◌, ◌↔◌, ◌⊎◌, refl, subst, some, none, List, [], ◌∷◌, arith, length,
  get_elem?, All, Option-cases, inl, inr,
}
use directplay_lite.Packet.Bytes.{IsByte}
use directplay_lite.Packet.Deserialiser.{
  Chunk, Deserialiser, Result, ok, err, fault, stuck, missing_field, ◌>>=◌, deserialise, num_fields,
  field_at, is_null, get_dword, get_data, get_wstring, get_guid,
}
use directplay_lite.Packet.Safety.{Parsed, Wraps, deserialise-Parsed}
use directplay_lite.Packet.Chunks.{InBounds}

-- A value or a C++ exception, which is MissingField exactly when there is no field at the index.
abbrev pub Answers {ℓ} : {A : Type ℓ} → Deserialiser → ℕ → Result A → Type 0
Answers pd i (ok a) = i < num_fields pd
Answers pd i (err e) = (e ≡ missing_field) ↔ (num_fields pd ≤ i)
Answers pd i fault = ⊥
Answers pd i stuck = ⊥

get_elem?-some :
    (cs : List Chunk) (i : ℕ) (c : Chunk)
    → All InBounds cs
    → get_elem? cs i ≡ some c
    → (i < length cs) × InBounds c
get_elem?-some [] i c h e = cc
get_elem?-some (x ∷ cs) zero c h e = let same : x ≡ c = cc in rw (← same) (omega arith, h.0)
get_elem?-some (x ∷ cs) (suc i) c h e = let (p, b) = get_elem?-some cs i c h.1 e in (omega arith, b)

get_elem?-none : (cs : List Chunk) (i : ℕ) → get_elem? cs i ≡ none → length cs ≤ i
get_elem?-none [] i e = omega arith
get_elem?-none (x ∷ cs) zero e = cc
get_elem?-none (x ∷ cs) (suc i) e = omega (arith, get_elem?-none cs i e)

-- A getter answers if it does so for each field that it may find, in bounds.
field_at-Answers {ℓ} :
    {A : Type ℓ} (pd : Deserialiser) (i : ℕ) (k : Chunk → Result A)
    → All InBounds pd.fields
    → ((c : Chunk) → i < num_fields pd → InBounds c → Answers pd i (k c))
    → Answers pd i (field_at pd i >>= k)
unfolding field_at
field_at-Answers pd i k h each = elim (Option-cases (get_elem? pd.fields i)) [
  | inl e ↦ rw (e, field_at) ((λ _. get_elem?-none pd.fields i e), (λ _. refl))
  | inr (c, e) ↦ let (p, b) = get_elem?-some pd.fields i c h e in rw (e, field_at) (each c p b)
]

module _ (pd : Deserialiser) (i : ℕ) (h : All InBounds pd.fields) where
  is_null-Answers : Answers pd i (is_null pd i)
  unfolding is_null
  is_null-Answers = field_at-Answers pd i _ h (λ c p b. p)

  pub get_dword-Answers : Answers pd i (get_dword pd i)
  unfolding get_dword
  get_dword-Answers = field_at-Answers pd i _ h (λ c p b. ground arith)

  pub get_data-Answers : Answers pd i (get_data pd i)
  unfolding get_data
  get_data-Answers = field_at-Answers pd i _ h (λ c p b. ground arith)

  pub get_wstring-Answers : Answers pd i (get_wstring pd i)
  unfolding get_wstring
  get_wstring-Answers = field_at-Answers pd i _ h (λ c p b. ground arith)

  get_guid-Answers : Answers pd i (get_guid pd i)
  unfolding get_guid
  get_guid-Answers = field_at-Answers pd i _ h (λ c p b. ground arith)

-- On whatever packet the constructor accepts, no getter reads outside the packet: it returns a value,
-- which it does only for an index in range, or throws, and what it throws is MissingField exactly for
-- an index out of range. The other case is a packet in which the header, or that of a field behind whole fields, announces a size that
-- does not fit a size_t, whose modulus is `m`.
pub getters-Answers :
    (m : ℕ) (packet : List ℕ) (pd : Deserialiser) (i : ℕ)
    → All IsByte packet
    → deserialise m packet ≡ ok pd
    → (Answers pd i (is_null pd i)
        × Answers pd i (get_dword pd i)
        × Answers pd i (get_data pd i)
        × Answers pd i (get_wstring pd i)
        × Answers pd i (get_guid pd i))
      ⊎ Wraps m packet
getters-Answers m packet pd i h e = elim (deserialise-Parsed m packet h) [
  | inr wraps ↦ inr wraps
  | inl p ↦
      let parsed : Parsed packet (ok pd) = subst (Parsed packet) e p in
      inl (
        is_null-Answers pd i parsed.2,
        get_dword-Answers pd i parsed.2,
        get_data-Answers pd i parsed.2,
        get_wstring-Answers pd i parsed.2,
        get_guid-Answers pd i parsed.2,
      )
]
