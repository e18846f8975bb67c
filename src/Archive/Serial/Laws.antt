-- ===== src/Archive/Serial/Laws.antt =====
-- What a writer and a reader of one type promise, on archives that hold more than that value.
pub mod Steps
use prpc.Base.{ℕ, ◌+◌, ◌≡◌, ◌++◌, Bool, true, Option, some, length, Bytes}
use prpc.Base.Outcome.{ok}
use prpc.Archive.{Allocator, MemoryArchive}
use prpc.Archive.Memory.{Holds}
use prpc.Archive.Memory.Growth.{Room}
use prpc.Archive.Serial.{Written, Read, Archivable, pico_serialize, pico_deserialize}

-- `write` answers `true` and appends `bytes`, whatever the archive holds, where there is room.
pub record Writes (bytes : Bytes) (write : MemoryArchive → Written) : Type 0 where
  pub appends :
      (a : MemoryArchive) (front body spare : Bytes) (n : ℕ)
      → Holds a front body spare
      → Room (length bytes + n) a
      → (b : MemoryArchive) × (write a ≡ ok (true, b))
        × (fresh : Bytes) × Holds b front (body ++ bytes) fresh
        × Room n b

-- `read` takes `bytes` off the front and answers `x`, whatever follows them.
pub record Reads {A : Type 0} (x : A) (bytes : Bytes) (read : MemoryArchive → Read A) : Type 0 where
  pub takes :
      (a : MemoryArchive) (front body spare : Bytes)
      → Holds a front (bytes ++ body) spare
      → (b : MemoryArchive) × (read a ≡ ok (some x, b)) × Holds b (front ++ bytes) body spare

-- The values of a type that a buffer can carry, their bytes, and the laws of the two functions.
pub record Lawful (A : Type 0) ⦃ar : Archivable A⦄ : Type 1 where
  pub Encodable : A → Type 0
  pub encoding : A → Bytes
  pub serialize-encoding :
      ⦃memory : Allocator⦄ (x : A) → Encodable x → Writes (encoding x) (pico_serialize x)
  pub deserialize-encoding : (x : A) → Encodable x → Reads x (encoding x) pico_deserialize
