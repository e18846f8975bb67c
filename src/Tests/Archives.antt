-- ===== src/Tests/Archives.antt =====
-- Runs of the archive: src/rpc/Archive.h.
use prpc.Base.{
  ℕ, ◌<◌, ◌≤◌, ◌≡◌, refl, true, false, [], ◌∷◌, ◌++◌, arith, replicate, length-replicate, Bytes,
  some, nat_eq,
}
use prpc.Base.Outcome.{ok, fault}
use prpc.Base.Maps.{find}
use prpc.Archive.{
  Allocator, MemoryArchive, create, read_raw, write_raw, reserve, is_exhausted, memcpy,
  prepare_write, move_to, buf_realloc, advance_end, reset,
}
use prpc.Archive.Calls.{IsArchive, do_write_raw}
use prpc.Archive.Memory.{Holds}
use prpc.Archive.Memory.Growth.{Room}
use prpc.Archive.Memory.Invariant.{run-IsArchive, reserve-given}
use prpc.Archive.Memory.Writing.{write_raw-Holds}
use prpc.Archive.Memory.Reading.{read_raw-take}
use prpc.Archive.Serial.{bytes_of}
use prpc.Archive.Serial.Shapes.{
  Shape, Value, key, string_key, pod_key, dictionary, vector, serialize, deserialize,
  deserialize-serialize, deserialize-truncated,
}
use prpc.Archive.Serial.Truncated.{is_refused}

-- Blocks that are full of 7.
instance abbrev memory : Allocator
memory = record { block = λ n. replicate n 7; length-block = λ n. length-replicate n 7 }

-- One byte has been read, two are to be read, and one is spare.
abbrev half : MemoryArchive
half = record {
  is_msg = false;
  is_null = false;
  buffer = 1 ∷ 2 ∷ 3 ∷ 9 ∷ [];
  cursor = 1;
  end = 3;
  is_default_malloc = true;
}

abbrev given : MemoryArchive
given = record half { is_default_malloc = false }

half-Holds : Holds half (1 ∷ []) (2 ∷ 3 ∷ []) (9 ∷ [])
half-Holds = record { parts = refl; at_cursor = refl; at_end = refl }

half-Room : (n : ℕ) → n < 1000 → Room n half
half-Room n h = record { owned = refl; small = omega arith; fits = omega (arith, h) }

abbrev grown : MemoryArchive
grown = record half { buffer = (1 ∷ 2 ∷ 3 ∷ 4 ∷ 5 ∷ []) ++ replicate 59 7; end = 5 }

grows : write_raw (4 ∷ 5 ∷ []) half ≡ ok grown
unfolding write_raw prepare_write reserve move_to buf_realloc memcpy advance_end
grows = refl

forgets : reserve 5 given ≡ record given {
  is_default_malloc = true;
  buffer = (1 ∷ 2 ∷ 3 ∷ []) ++ replicate 61 7;
  cursor = 0;
  end = 0;
}
unfolding reserve move_to reset
forgets = refl

reserve-given_example : ((reserve 5 given).cursor ≡ 0) × ((reserve 5 given).end ≡ 0)
reserve-given_example = reserve-given given 5 refl (omega arith)

write_raw-Holds_example :
    (b : MemoryArchive) × (write_raw (4 ∷ 5 ∷ []) half ≡ ok b)
    × ((fresh : Bytes) × Holds b (1 ∷ []) (2 ∷ 3 ∷ 4 ∷ 5 ∷ []) fresh × Room 0 b)
write_raw-Holds_example = write_raw-Holds (4 ∷ 5 ∷ []) 0 half-Holds (half-Room 2 (omega arith))

read_raw-take_example :
    (1 ≤ 2
      → (b : MemoryArchive) × (read_raw 1 half ≡ ok (2 ∷ [], b))
        × Holds b (1 ∷ 2 ∷ []) (3 ∷ []) (9 ∷ []))
    × (2 < 1 → read_raw 1 half ≡ fault)
read_raw-take_example = read_raw-take 1 half-Holds

run-IsArchive_example : IsArchive grown
run-IsArchive_example =
    run-IsArchive (do_write_raw (4 ∷ 5 ∷ [])) half (omega arith, omega arith) tt (omega arith)
      (omega arith) grown grows

-- From names to lists of 4-byte numbers.
abbrev table_shape : Shape
table_shape = dictionary string_key (vector (key (pod_key 4)))

abbrev table : Value table_shape
table = record {
  entries =
      (record { bytes = 97 ∷ [] }, record { value = 1 } ∷ record { value = 65536 } ∷ [])
      ∷ (record { bytes = 98 ∷ 99 ∷ [] }, [])
      ∷ [];
}

deserialize-serialize_example :
    (b c : MemoryArchive) × (serialize table_shape table (create true) ≡ ok (true, b))
    × (deserialize table_shape b ≡ ok (some table, c))
    × (is_exhausted c ≡ true)
unfolding create find bytes_of
deserialize-serialize_example =
    deserialize-serialize table_shape table (create true) [] []
      (
        omega arith,
        (
          (
            omega arith,
            (omega arith, ((omega arith, omega arith), ((omega arith, omega arith), tt))),
          ),
          ((omega arith, (omega arith, tt)), tt),
        ),
        (refl, (refl, tt)),
      )
      (record { parts = refl; at_cursor = refl; at_end = refl })
      (record { owned = refl; small = omega arith; fits = omega arith })

-- Three of the four bytes of a number.
deserialize-truncated_example :
    is_refused (deserialize (key (pod_key 4)) (record half { cursor = 0; end = 3 })) ≡ true
unfolding bytes_of
deserialize-truncated_example =
    deserialize-truncated (key (pod_key 4)) (record { value = 0x09030201 })
      (record half { cursor = 0; end = 3 }) [] (1 ∷ 2 ∷ 3 ∷ []) (9 ∷ []) 9 []
      (omega arith, omega arith) (record { parts = refl; at_cursor = refl; at_end = refl }) refl
