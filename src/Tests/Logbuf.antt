-- ===== src/Tests/Logbuf.antt =====
-- A log buffer of four bytes per request.
use navarch.Prelude.{◌≡◌, refl, false, some, [], ◌∷◌, arith, inr}
use navarch.Logbuf.{Entry, Buffer, find_entry, write, read}
use navarch.Logbuf.Entries.{Sound, IsNumbered, total}
use navarch.Logbuf.Bounds.{IsBounded, unused, used, writes, Uses-IsBounded, read_resumes}

abbrev empty_buffer : Buffer
empty_buffer = record { entries = []; max_bytes = 4; max_requests = 2 }

empty-IsBounded : IsBounded empty_buffer
unfolding IsBounded
empty-IsBounded = (omega arith, tt)

abbrev one_write : Buffer
one_write = (write 10 1 (65 ∷ 66 ∷ 67 ∷ []) empty_buffer).1

Uses-IsBounded_example : IsBounded (write 20 1 (68 ∷ 69 ∷ []) one_write).1
Uses-IsBounded_example =
    Uses-IsBounded
      (used (used unused (writes 10 1 (65 ∷ 66 ∷ 67 ∷ []) refl)) (writes 20 1 (68 ∷ 69 ∷ []) refl))
      empty-IsBounded

abbrev held : Entry
held = record {
  chunks = record { seq = 0; data_bytes = 65 ∷ 66 ∷ 67 ∷ [] } ∷ [];
  bytes = 3;
  next_seq = 1;
  dropped = false;
  last_seen = 10;
}

abbrev held_buffer : Buffer
held_buffer = record { entries = (1, held) ∷ []; max_bytes = 4; max_requests = 2 }

held_found : find_entry 1 held_buffer.entries ≡ some held
unfolding find_entry
held_found = refl

held-Sound : Sound 4 held
unfolding IsNumbered total
held-Sound = record {
  first = 0;
  numbered = (refl, refl);
  counted = refl;
  bounded = inr (omega arith);
}

-- The second delivery pushes the first one out.
read_resumes_example :
    (read 40 1
      (read 20 1 0 held_buffer).0.1
      (write 30 1 (68 ∷ 69 ∷ []) (read 20 1 0 held_buffer).1).1).0.0
    ≡ record { seq = 1; data_bytes = 68 ∷ 69 ∷ [] } ∷ []
read_resumes_example = read_resumes 20 30 40 1 0 68 (69 ∷ []) held_buffer held held_found held-Sound
