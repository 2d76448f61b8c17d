-- ===== src/Logbuf/Bounds.antt =====
-- The bounds of a log buffer, and that a reader which resumes at its cursor misses nothing.
use navarch.Prelude.{
  ℕ, ◌+◌, ◌≤◌, ◌≡◌, refl, sym, ◌∙◌, ap, subst, Bool, true, false, not, none, some, List, [], ◌∷◌,
  select, length, leb, ◌==◌, ==_self, arith, All, Bool-cases, Option-cases, inl, inr,
}
use navarch.Logbuf.{
  Entry, Buffer, new_entry, find_entry, put, deliver, write, read, drop_request, expire,
}
use navarch.Logbuf.Entries.{
  total, IsNumbered, Sound, deliver-Sound, fresh_chunk, from_cursor, deliver-from_cursor,
}

find_entry-put : (id : ℕ) (e : Entry) (m : List (ℕ × Entry)) → find_entry id (put id e m) ≡ some e
unfolding find_entry put
find_entry-put id e [] = ground (arith, ==_self id)
find_entry-put id e ((k, old) ∷ m) = ground (arith, find_entry-put id e m)

read-hit :
    (now id cursor : ℕ) (b : Buffer) (e : Entry)
    → find_entry id b.entries ≡ some e
    → read now id cursor b ≡ (
      (from_cursor cursor e.chunks, e.next_seq, e.dropped),
      record b { entries = put id (record e { last_seen = now }) b.entries },
    )
unfolding read
read-hit now id cursor b e at = rw (read, at) refl

write-hit :
    (now id : ℕ) (bytes : List ℕ) (b : Buffer) (e : Entry)
    → find_entry id b.entries ≡ some e
    → write now id bytes b
      ≡ (true, record b { entries = put id (deliver b.max_bytes now bytes e) b.entries })
unfolding write
write-hit now id bytes b e at = rw (write, at) refl

write-full :
    (now id : ℕ) (bytes : List ℕ) (b : Buffer)
    → find_entry id b.entries ≡ none
    → leb b.max_requests (length b.entries) ≡ true
    → write now id bytes b ≡ (false, b)
unfolding write
write-full now id bytes b at full = rw (write, at, full) refl

write-room :
    (now id : ℕ) (bytes : List ℕ) (b : Buffer)
    → find_entry id b.entries ≡ none
    → leb b.max_requests (length b.entries) ≡ false
    → write now id bytes b
      ≡ (true, record b { entries = put id (deliver b.max_bytes now bytes new_entry) b.entries })
unfolding write
write-room now id bytes b at room = rw (write, at, room) refl

read-miss :
    (now id cursor : ℕ) (b : Buffer)
    → find_entry id b.entries ≡ none
    → read now id cursor b ≡ (([], cursor, false), b)
unfolding read
read-miss now id cursor b at = rw (read, at) refl

-- A reader that resumes at the cursor of its last read gets exactly what was written since: the next
-- non-empty delivery, whatever was dropped to make room for it.
pub read_resumes :
    (t1 t2 t3 id cursor b : ℕ) (bs : List ℕ) (buf : Buffer) (e : Entry)
    → find_entry id buf.entries ≡ some e
    → Sound buf.max_bytes e
    → (read t3 id
        (read t1 id cursor buf).0.1
        (write t2 id (b ∷ bs) (read t1 id cursor buf).1).1).0.0
      ≡ fresh_chunk e b bs ∷ []
read_resumes t1 t2 t3 id cursor b bs buf e at s =
    let seen = record e { last_seen = t1 } in
    let buf1 = record buf { entries = put id seen buf.entries } in
    let now_at = find_entry-put id seen buf.entries in
    let then_at =
      find_entry-put id (deliver buf.max_bytes t2 (b ∷ bs) seen) (put id seen buf.entries) in
    rw (read-hit t1 id cursor buf e at) (
      ap (λ w. (read t3 id e.next_seq w.1).0.0) (write-hit t2 id (b ∷ bs) buf1 seen now_at)
      ∙ ap (λ r. r.0.0)
          (read-hit t3 id e.next_seq
            (record buf1 {
              entries = put id (deliver buf.max_bytes t2 (b ∷ bs) seen) (put id seen buf.entries);
            })
            (deliver buf.max_bytes t2 (b ∷ bs) seen) then_at)
      ∙ deliver-from_cursor buf.max_bytes t2 b bs seen (record {
        first = s.first;
        numbered = s.numbered;
        counted = s.counted;
        bounded = s.bounded;
      }))

-- Within its number of requests, and every entry within its bytes.
unfoldable pub IsBounded : Buffer → Type 0
IsBounded b =
    (length b.entries ≤ b.max_requests) × All (λ (p : ℕ × Entry). Sound b.max_bytes p.1) b.entries

found-Sound :
    (max id : ℕ) (m : List (ℕ × Entry)) (e : Entry)
    → All (λ (p : ℕ × Entry). Sound max p.1) m
    → find_entry id m ≡ some e
    → Sound max e
unfolding find_entry
found-Sound max id [] e h f = absurd (ground arith)
found-Sound max id ((k, x) ∷ m) e h f = elim (Bool-cases (k == id)) [
  | inl hit ↦ subst (Sound max) (some_inj (ground arith)) h.0
  | inr miss ↦ found-Sound max id m e h.1 (ground arith)
]
  where
    some_inj : {a b : Entry} → some a ≡ some b → a ≡ b
    some_inj q = cc

put-All :
    (max id : ℕ) (e : Entry) (m : List (ℕ × Entry))
    → Sound max e
    → All (λ (p : ℕ × Entry). Sound max p.1) m
    → All (λ (p : ℕ × Entry). Sound max p.1) (put id e m)
unfolding put
put-All max id e [] s h = (s, tt)
put-All max id e ((k, x) ∷ m) s h = elim (Bool-cases (k == id)) [
  | inl hit ↦ rw hit (s, h.1)
  | inr miss ↦ rw miss (h.0, put-All max id e m s h.1)
]

length-put-found :
    (id : ℕ) (e old : Entry) (m : List (ℕ × Entry))
    → find_entry id m ≡ some old
    → length (put id e m) ≡ length m
unfolding find_entry put
length-put-found id e old [] f = absurd (ground arith)
length-put-found id e old ((k, x) ∷ m) f = ground (arith, length-put-found id e old m)

length-put : (id : ℕ) (e : Entry) (m : List (ℕ × Entry)) → length (put id e m) ≤ length m + 1
unfolding put
length-put id e [] = omega arith
length-put id e ((k, x) ∷ m) = ground (arith, length-put id e m)

select-bounded :
    (max : ℕ) (p : ℕ × Entry → Bool) (m : List (ℕ × Entry))
    → All (λ (q : ℕ × Entry). Sound max q.1) m
    → All (λ (q : ℕ × Entry). Sound max q.1) (select p m) × (length (select p m) ≤ length m)
select-bounded max p [] h = (tt, omega arith)
select-bounded max p (q ∷ m) h =
    let (a, l) = select-bounded max p m h.1 in
    elim (Bool-cases (p q)) [
      | inl keep ↦ rw keep ((h.0, a), omega arith)
      | inr gone ↦ rw gone (a, omega arith)
    ]

-- One operation of the package, by an agent, a requester or a sweep.
pub data Use (b b' : Buffer) : Type 0 where
  writes : (now id : ℕ) (bytes : List ℕ) → b' ≡ (write now id bytes b).1 → Use b b'
  reads : (now id cursor : ℕ) → b' ≡ (read now id cursor b).1 → Use b b'
  drops : (id : ℕ) → b' ≡ drop_request id b → Use b b'
  expires : (now max_age : ℕ) → b' ≡ (expire now max_age b).1 → Use b b'

pub data Uses (b : Buffer) : Buffer → Type 0 where
  unused : Uses b b
  used : {c d : Buffer} → Uses b c → Use c d → Uses b d

new-Sound : (max : ℕ) → Sound max new_entry
unfolding IsNumbered total
new-Sound max = record { first = 0; numbered = refl; counted = refl; bounded = inr (omega arith) }

write-IsBounded :
    (now id : ℕ) (bytes : List ℕ) (b : Buffer) → IsBounded b → IsBounded (write now id bytes b).1
unfolding IsBounded
write-IsBounded now id bytes b h = elim (Option-cases (find_entry id b.entries)) [
  | inr (e, at) ↦ rw (write-hit now id bytes b e at) (
    subst (λ n. n ≤ b.max_requests) (sym (length-put-found id _ e b.entries at)) h.0,
    put-All b.max_bytes id _ b.entries
        (deliver-Sound b.max_bytes now bytes e (found-Sound b.max_bytes id b.entries e h.1 at)) h.1,
  )
  | inl missing ↦ elim (Bool-cases (leb b.max_requests (length b.entries))) [
    | inl full ↦ rw (write-full now id bytes b missing full) h
    | inr room ↦ rw (write-room now id bytes b missing room) (
      ground (arith, length-put id (deliver b.max_bytes now bytes new_entry) b.entries),
      put-All b.max_bytes id _ b.entries
          (deliver-Sound b.max_bytes now bytes new_entry (new-Sound b.max_bytes)) h.1,
    )
  ]
]

read-IsBounded : (now id cursor : ℕ) (b : Buffer) → IsBounded b → IsBounded (read now id cursor b).1
unfolding IsBounded
read-IsBounded now id cursor b h = elim (Option-cases (find_entry id b.entries)) [
  | inl missing ↦ rw (read-miss now id cursor b missing) h
  | inr (e, at) ↦
      let s = found-Sound b.max_bytes id b.entries e h.1 at in
      rw (read-hit now id cursor b e at) (
        subst (λ n. n ≤ b.max_requests) (sym (length-put-found id _ e b.entries at)) h.0,
        put-All b.max_bytes id _ b.entries
            (record {
              first = s.first;
              numbered = s.numbered;
              counted = s.counted;
              bounded = s.bounded;
            })
            h.1,
      )
]

Use-IsBounded : {b b' : Buffer} → Use b b' → IsBounded b → IsBounded b'
unfolding IsBounded drop_request expire
Use-IsBounded {b} {b'} (writes now id bytes e) h =
    subst IsBounded (sym e) (write-IsBounded now id bytes b h)
Use-IsBounded {b} {b'} (reads now id cursor e) h =
    subst IsBounded (sym e) (read-IsBounded now id cursor b h)
Use-IsBounded {b} {b'} (drops id e) h =
    let (a, l) = select-bounded b.max_bytes (λ p. not (p.0 == id)) b.entries h.1 in
    subst IsBounded (sym e) (omega arith, a)
Use-IsBounded {b} {b'} (expires now max_age e) h =
    let (a, l) =
      select-bounded b.max_bytes (λ p. leb now (p.1.last_seen + max_age)) b.entries h.1 in
    subst IsBounded (sym e) (omega arith, a)

-- Any sequence of writes, reads, drops and expiries keeps the number of requests within its cap, and
-- in each entry the counted bytes are those of the chunks, the chunks are numbered in a row up to the
-- next number, and the bytes are within the cap unless a single chunk is left.
pub Uses-IsBounded : {b b' : Buffer} → Uses b b' → IsBounded b → IsBounded b'
Uses-IsBounded unused h = h
Uses-IsBounded (used r s) h = Use-IsBounded s (Uses-IsBounded r h)
