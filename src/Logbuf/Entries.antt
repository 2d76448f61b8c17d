-- ===== src/Logbuf/Entries.antt =====
-- One request's entry: its numbering, its counted bytes and its cap, kept by a delivery.
use navarch.Prelude.{
  ℕ, ◌+◌, ◌-◌, ◌≤◌, ◌≡◌, refl, sym, ◌∙◌, ap, true, false, List, [], ◌∷◌, ◌++◌, select, length, ltb,
  leb, arith, All, Bool-cases, ◌⊎◌, inl, inr,
}
use navarch.Logbuf.{Chunk, Entry, trim, deliver}

unfoldable pub total : List Chunk → ℕ
total [] = 0
total (c ∷ cs) = length c.data_bytes + total cs

-- The chunks are numbered from lo up to, and without, hi.
unfoldable pub IsNumbered : ℕ → List Chunk → ℕ → Type 0
IsNumbered lo [] hi = lo ≡ hi
IsNumbered lo (c ∷ cs) hi = (c.seq ≡ lo) × IsNumbered (lo + 1) cs hi

-- The counted bytes are the chunks' bytes, and are within the cap unless one chunk is left.
pub record Sound (max : ℕ) (e : Entry) : Type 0 where
  pub first : ℕ
  pub numbered : IsNumbered first e.chunks e.next_seq
  pub counted : e.bytes ≡ total e.chunks
  pub bounded : (e.bytes ≤ max) ⊎ (length e.chunks ≤ 1)

pub trim-Sound :
    (max : ℕ) (cs : List Chunk) (e : Entry) (lo : ℕ)
    → IsNumbered lo cs e.next_seq
    → e.bytes ≡ total cs
    → Sound max (trim max cs e)
unfolding trim IsNumbered total
trim-Sound max [] e lo n t = record {
  first = lo;
  numbered = n;
  counted = t;
  bounded = inr (omega arith);
}
trim-Sound max (c ∷ []) e lo n t = record {
  first = lo;
  numbered = n;
  counted = t;
  bounded = inr (ground arith);
}
trim-Sound max (c ∷ k ∷ cs) e lo n t = elim (Bool-cases (ltb max e.bytes)) [
  | inl over ↦ rw over (
      trim-Sound max (k ∷ cs) (record e { bytes = e.bytes - length c.data_bytes; dropped = true })
        (lo + 1) n.1 (omega arith))
  | inr fits ↦
      rw fits (record { first = lo; numbered = n; counted = t; bounded = inl (ground arith) })
]

IsNumbered-snoc :
    (lo hi : ℕ) (cs : List Chunk) (c : Chunk)
    → IsNumbered lo cs hi
    → c.seq ≡ hi
    → IsNumbered lo (cs ++ (c ∷ [])) (hi + 1)
unfolding IsNumbered
IsNumbered-snoc lo hi [] c n e = (e ∙ sym n, ap (λ (k : ℕ). k + 1) n)
IsNumbered-snoc lo hi (d ∷ ds) c n e = (n.0, IsNumbered-snoc (lo + 1) hi ds c n.1 e)

total_snoc : (cs : List Chunk) (c : Chunk) → total (cs ++ (c ∷ [])) ≡ total cs + length c.data_bytes
unfolding total
total_snoc [] c = omega arith
total_snoc (d ∷ ds) c = omega (arith, total_snoc ds c)

pub deliver-Sound :
    (max now : ℕ) (bytes : List ℕ) (e : Entry) → Sound max e → Sound max (deliver max now bytes e)
unfolding deliver
deliver-Sound max now [] e s = record {
  first = s.first;
  numbered = s.numbered;
  counted = s.counted;
  bounded = s.bounded;
}
deliver-Sound max now (b ∷ bs) e s =
    trim-Sound max _ _ s.first (IsNumbered-snoc s.first e.next_seq e.chunks _ s.numbered refl) (
      omega
        (arith, s.counted, total_snoc e.chunks (record { seq = e.next_seq; data_bytes = b ∷ bs })))

abbrev pub fresh_chunk : Entry → ℕ → List ℕ → Chunk
fresh_chunk e b bs = record { seq = e.next_seq; data_bytes = b ∷ bs }

abbrev pub from_cursor : ℕ → List Chunk → List Chunk
from_cursor cursor cs = select (λ (c : Chunk). leb cursor c.seq) cs

below_hi :
    (lo hi : ℕ) (cs : List Chunk)
    → IsNumbered lo cs hi
    → All (λ (c : Chunk). leb hi c.seq ≡ false) cs × (lo ≤ hi)
unfolding IsNumbered
below_hi lo hi [] n = (tt, omega arith)
below_hi lo hi (c ∷ cs) n =
    let (r, le) = below_hi (lo + 1) hi cs n.1 in ((ground (arith, n.0), r), omega arith)

trim-from_cursor :
    (max cursor : ℕ) (cs : List Chunk) (c : Chunk) (e : Entry)
    → All (λ (x : Chunk). leb cursor x.seq ≡ false) cs
    → from_cursor cursor (trim max (cs ++ (c ∷ [])) e).chunks ≡ from_cursor cursor (c ∷ [])
unfolding trim
trim-from_cursor max cursor [] c e h = refl
trim-from_cursor max cursor (d ∷ []) c e h = elim (Bool-cases (ltb max e.bytes)) [
  | inl over ↦ rw over refl
  | inr fits ↦ rw (fits, h.0) refl
]
trim-from_cursor max cursor (d ∷ x ∷ xs) c e h = elim (Bool-cases (ltb max e.bytes)) [
  | inl over ↦ rw over (
      trim-from_cursor max cursor (x ∷ xs) c
        (record e { bytes = e.bytes - length d.data_bytes; dropped = true }) h.1)
  | inr fits ↦ rw (fits, h.0) (skip (x ∷ xs) h.1)
]
  where
    skip :
        (ys : List Chunk)
        → All (λ (y : Chunk). leb cursor y.seq ≡ false) ys
        → from_cursor cursor (ys ++ (c ∷ [])) ≡ from_cursor cursor (c ∷ [])
    skip [] k = refl
    skip (y ∷ ys) k = rw k.0 (skip ys k.1)

pub deliver-from_cursor :
    (max now b : ℕ) (bs : List ℕ) (e : Entry)
    → Sound max e
    → from_cursor e.next_seq (deliver max now (b ∷ bs) e).chunks ≡ fresh_chunk e b bs ∷ []
unfolding deliver
deliver-from_cursor max now b bs e s =
    trim-from_cursor max e.next_seq e.chunks (fresh_chunk e b bs) _
      (below_hi s.first e.next_seq e.chunks s.numbered).0
    ∙ ground arith
