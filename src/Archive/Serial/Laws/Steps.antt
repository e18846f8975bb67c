-- ===== src/Archive/Serial/Laws/Steps.antt =====
-- The promises of two writers or readers in a row, and those of the primitive ones.
use prpc.Base.{◌+◌, refl, sym, subst, true, some}
use prpc.Base.{[], ◌++◌, append_assoc, append-nil, arith, length, length-append, Bytes}
use prpc.Base.Outcome.{ok}
use prpc.Archive.{Allocator, MemoryArchive, read_raw_uncheck}
use prpc.Archive.Memory.{Holds}
use prpc.Archive.Memory.Growth.{Room}
use prpc.Archive.Memory.Reading.{past, past-Holds, read_raw_uncheck-Holds}
use prpc.Archive.Memory.Writing.{write_raw-Holds}
use prpc.Archive.Serial.{Written, Read, and_write, and_read, write_raw_uncheck, taken}
use prpc.Archive.Serial.Laws.{Writes, Reads}

pub and_write-Writes :
    {xs ys : Bytes} {write next : MemoryArchive → Written}
    → Writes xs write
    → Writes ys next
    → Writes (xs ++ ys) (λ a. and_write (write a) next)
and_write-Writes {xs} {ys} {write} {next} first second = record {
  appends = λ a front body spare n h room.
      let whole : Room (length xs + (length ys + n)) a = record {
        owned = room.owned;
        small = room.small;
        fits = omega (arith, room.fits, length-append xs ys);
      } in
      let (b, e, middle, held, left) = first.appends _ _ _ _ (length ys + n) h whole in
      let (c, k, fresh, held, left) = second.appends _ _ _ _ n held left in
      (c, rw (e) k, fresh, subst (λ t. Holds c front t fresh) (append_assoc body xs ys) held, left);
}

pub and_read-Reads :
    {A B : Type 0} {x : A} {y : B} {xs ys : Bytes} {read : MemoryArchive → Read A}
    (next : A → MemoryArchive → Read B)
    → Reads x xs read
    → Reads y ys (next x)
    → Reads y (xs ++ ys) (λ a. and_read (read a) next)
and_read-Reads {x} {xs} {ys} next first second = record {
  takes = λ a front body spare h.
      let start : Holds a front (xs ++ (ys ++ body)) spare =
        subst (λ t. Holds a front t spare) (append_assoc xs ys body) h in
      let (b, e, held) = first.takes _ _ (ys ++ body) _ start in
      let (c, k, held) = second.takes _ _ body _ held in
      (c, rw (e) k, subst (λ t. Holds c t body spare) (append_assoc front xs ys) held);
}

-- Nothing is written or read where there is nothing to do.
pub done-Writes : Writes [] (λ a. ok (true, a))
done-Writes = record {
  appends = λ a front body spare n h room. (
    a,
    refl,
    spare,
    subst (λ t. Holds a front t spare) (sym (append-nil body)) h,
    record { owned = room.owned; small = room.small; fits = omega (arith, room.fits) },
  );
}

pub done-Reads : {A : Type 0} (x : A) → Reads x [] (λ a. ok (some x, a))
done-Reads x = record {
  takes = λ a front body spare h.
      (a, refl, subst (λ t. Holds a t body spare) (sym (append-nil front)) h);
}

module _ ⦃memory : Allocator⦄ where
  pub raw-Writes : (p : Bytes) → Writes p (write_raw_uncheck p)
  unfolding write_raw_uncheck
  raw-Writes p = record {
    appends = λ a front body spare n h room.
        let (b, e, after) = write_raw-Holds p n h room in
        (b, rw (e) refl, after.0, after.1, after.2);
  }

pub raw-Reads :
    {A : Type 0} (p : Bytes) (make : Bytes → A)
    → Reads (make p) p (λ a. taken make (read_raw_uncheck (length p) a))
raw-Reads p make = record {
  takes = λ a front body spare h.
      (past a p, rw (read_raw_uncheck-Holds p body h) refl, past-Holds p body h);
}

-- A value that is made of the one that was read.
pub map-Reads :
    {A B : Type 0} {x : A} {xs : Bytes} {read : MemoryArchive → Read A} (make : A → B)
    → Reads x xs read
    → Reads (make x) xs (λ a. and_read (read a) λ x a. ok (some (make x), a))
map-Reads {xs} make first = record {
  takes =
      λ a front body spare h. let (b, e, held) = first.takes _ _ body _ h in (b, rw (e) refl, held);
}
