-- ===== src/Logbuf.antt =====
-- internal/logbuf/logbuf.go: delivered container output, bounded per request and in total.
-- A Go string is the list of its bytes, a request's UUID its number and a time a number of
-- milliseconds. The map of entries is a list of pairs with distinct keys; the mutex makes each
-- operation one step.
pub mod Entries
pub mod Bounds
use navarch.Prelude.{
  ℕ, ◌+◌, ◌-◌, Bool, true, false, not, Option, none, some, List, [], ◌∷◌, ◌++◌, select, length, ltb,
  leb, ◌==◌, if◌then◌else◌, map,
}

pub record Chunk : Type 0 where
  pub seq : ℕ
  pub data_bytes : List ℕ

pub record Entry : Type 0 where
  pub chunks : List Chunk
  pub bytes : ℕ
  pub next_seq : ℕ
  pub dropped : Bool
  pub last_seen : ℕ

pub record Buffer : Type 0 where
  pub entries : List (ℕ × Entry)
  pub max_bytes : ℕ
  pub max_requests : ℕ

abbrev pub new_entry : Entry
new_entry = record { chunks = []; bytes = 0; next_seq = 0; dropped = false; last_seen = 0 }

-- e, ok := b.entries[id]
unfoldable pub find_entry : ℕ → List (ℕ × Entry) → Option Entry
find_entry id [] = none
find_entry id ((k, e) ∷ m) = let rest = find_entry id m in if k == id then some e else rest

-- b.entries[id] = e
unfoldable pub put : ℕ → Entry → List (ℕ × Entry) → List (ℕ × Entry)
put id e [] = (id, e) ∷ []
put id e ((k, old) ∷ m) = let rest = put id e m in if k == id then (k, e) ∷ m else (k, old) ∷ rest

-- The loop that drops chunks from the front while the entry is over the cap.
unfoldable pub trim : ℕ → List Chunk → Entry → Entry
trim max [] e = record e { chunks = [] }
trim max (c ∷ []) e = record e { chunks = c ∷ [] }
trim max (c ∷ k ∷ cs) e =
    let rest =
      trim max (k ∷ cs) (record e { bytes = e.bytes - length c.data_bytes; dropped = true }) in
    if ltb max e.bytes then rest else record e { chunks = c ∷ k ∷ cs }

-- The rest of Write, for the entry that the request has.
unfoldable pub deliver : ℕ → ℕ → List ℕ → Entry → Entry
unfolding trim
deliver max now [] e = record e { last_seen = now }
deliver max now (b ∷ bs) e =
    trim max (e.chunks ++ (record { seq = e.next_seq; data_bytes = b ∷ bs } ∷ []))
      (record e { next_seq = e.next_seq + 1; bytes = e.bytes + length (b ∷ bs); last_seen = now })

-- Write.
unfoldable pub write : ℕ → ℕ → List ℕ → Buffer → Bool × Buffer
unfolding find_entry put deliver
write now id bytes b = elim (find_entry id b.entries) [
  | some e ↦ (true, record b { entries = put id (deliver b.max_bytes now bytes e) b.entries })
  | none ↦
      if leb b.max_requests (length b.entries)
      then (false, b)
      else (true, record b { entries = put id (deliver b.max_bytes now bytes new_entry) b.entries })
]

-- Read, as its three results and the buffer that it touches.
unfoldable pub read : ℕ → ℕ → ℕ → Buffer → (List Chunk × ℕ × Bool) × Buffer
unfolding find_entry put
read now id cursor b = elim (find_entry id b.entries) [
  | none ↦ (([], cursor, false), b)
  | some e ↦ (
    (select (λ (c : Chunk). leb cursor c.seq) e.chunks, e.next_seq, e.dropped),
    record b { entries = put id (record e { last_seen = now }) b.entries },
  )
]

-- Drop.
unfoldable pub drop_request : ℕ → Buffer → Buffer
drop_request id b = record b { entries = select (λ p. not (p.0 == id)) b.entries }

-- Expire, with the number of entries that went.
unfoldable pub expire : ℕ → ℕ → Buffer → ℕ × Buffer
expire now max_age b =
    let kept = select (λ (p : ℕ × Entry). leb now (p.1.last_seen + max_age)) b.entries in
    (length b.entries - length kept, record b { entries = kept })
