-- ===== src/Accumulator/Aggregators/Laws.antt =====
-- Merging is a commutative monoid on the aggregators of one type, and agrees with adding values.
use prpc.Base.{ℕ, ◌-◌, ◌*◌, ◌%◌, ◌≡◌, ◌<◌, refl, ap, sym, arith}
use prpc.Accumulator.Aggregators.{
  word, add, Aggregator, sum_of, avg_of, max_of, min_of, timer_of, type_name, raise, lower, init,
  merge_value, merge_aggregator,
}

add_comm : (a b : ℕ) → add a b ≡ add b a
add_comm a b = omega arith

add_assoc : (a b c : ℕ) → add (add a b) c ≡ add a (add b c)
add_assoc a b c = omega arith

raise_comm : (a b : ℕ) → raise a b ≡ raise b a
raise_comm a b = ground arith

raise_assoc : (a b c : ℕ) → raise (raise a b) c ≡ raise a (raise b c)
raise_assoc a b c = ground arith

lower_comm : (a b : ℕ) → lower a b ≡ lower b a
lower_comm a b = ground arith

lower_assoc : (a b c : ℕ) → lower (lower a b) c ≡ lower a (lower b c)
lower_assoc a b c = ground arith

add_zero : (a : ℕ) → a < word → add 0 a ≡ a
add_zero a h = omega arith

raise_zero : (a : ℕ) → raise 0 a ≡ a
raise_zero a = ground arith

lower_most : (a : ℕ) → a < word → lower (word - 1) a ≡ a
lower_most a h = ground arith

-- Each field is a word.
abbrev pub AllWords : Aggregator → Type 0
AllWords (sum_of v) = v < word
AllWords (avg_of v c) = (v < word) × (c < word)
AllWords (max_of v) = v < word
AllWords (min_of v) = v < word
AllWords (timer_of s q l m c) = (s < word) × (q < word) × (l < word) × (m < word) × (c < word)

-- Two aggregators of one type.
pub data SameType : Aggregator → Aggregator → Type 0 where
  sums : {v v' : ℕ} → SameType (sum_of v) (sum_of v')
  averages : {v c v' c' : ℕ} → SameType (avg_of v c) (avg_of v' c')
  maxima : {v v' : ℕ} → SameType (max_of v) (max_of v')
  minima : {v v' : ℕ} → SameType (min_of v) (min_of v')
  timers : {s q l m c s' q' l' m' c' : ℕ} → SameType (timer_of s q l m c) (timer_of s' q' l' m' c')

pub same_type : (a b : Aggregator) → type_name a ≡ type_name b → SameType a b
unfolding type_name
same_type (sum_of v) (sum_of v') h = sums
same_type (sum_of v) (avg_of v' c') h = absurd (omega arith)
same_type (sum_of v) (max_of v') h = absurd (omega arith)
same_type (sum_of v) (min_of v') h = absurd (omega arith)
same_type (sum_of v) (timer_of s' q' l' m' c') h = absurd (omega arith)
same_type (avg_of v c) (sum_of v') h = absurd (omega arith)
same_type (avg_of v c) (avg_of v' c') h = averages
same_type (avg_of v c) (max_of v') h = absurd (omega arith)
same_type (avg_of v c) (min_of v') h = absurd (omega arith)
same_type (avg_of v c) (timer_of s' q' l' m' c') h = absurd (omega arith)
same_type (max_of v) (sum_of v') h = absurd (omega arith)
same_type (max_of v) (avg_of v' c') h = absurd (omega arith)
same_type (max_of v) (max_of v') h = maxima
same_type (max_of v) (min_of v') h = absurd (omega arith)
same_type (max_of v) (timer_of s' q' l' m' c') h = absurd (omega arith)
same_type (min_of v) (sum_of v') h = absurd (omega arith)
same_type (min_of v) (avg_of v' c') h = absurd (omega arith)
same_type (min_of v) (max_of v') h = absurd (omega arith)
same_type (min_of v) (min_of v') h = minima
same_type (min_of v) (timer_of s' q' l' m' c') h = absurd (omega arith)
same_type (timer_of s q l m c) (sum_of v') h = absurd (omega arith)
same_type (timer_of s q l m c) (avg_of v' c') h = absurd (omega arith)
same_type (timer_of s q l m c) (max_of v') h = absurd (omega arith)
same_type (timer_of s q l m c) (min_of v') h = absurd (omega arith)
same_type (timer_of s q l m c) (timer_of s' q' l' m' c') h = timers

pub type_name-merge :
    {a b : Aggregator} → SameType a b → type_name (merge_aggregator a b) ≡ type_name a
unfolding merge_aggregator type_name
type_name-merge sums = refl
type_name-merge averages = refl
type_name-merge maxima = refl
type_name-merge minima = refl
type_name-merge timers = refl

-- Merging two aggregators of one type gives the same in either order.
pub merge_aggregator_comm :
    {a b : Aggregator} → SameType a b → merge_aggregator a b ≡ merge_aggregator b a
unfolding merge_aggregator
merge_aggregator_comm (sums {v = v} {v' = v'}) = ap sum_of (add_comm v v')
merge_aggregator_comm (averages {v = v} {c = c} {v' = v'} {c' = c'}) =
    rw (add_comm v v', add_comm c c') refl
merge_aggregator_comm (maxima {v = v} {v' = v'}) = ap max_of (raise_comm v v')
merge_aggregator_comm (minima {v = v} {v' = v'}) = ap min_of (lower_comm v v')
merge_aggregator_comm
      (timers {s = s} {q = q} {l = l} {m = m} {c = c} {s' = s'} {q' = q'} {l' = l'} {m' = m'}
        {c' = c'}) =
    rw (add_comm s s', add_comm q q', lower_comm l l', raise_comm m m', add_comm c c') refl

-- Merging three aggregators of one type gives the same in either grouping.
pub merge_aggregator_assoc :
    {a b c : Aggregator}
    → SameType a b
    → SameType b c
    → merge_aggregator (merge_aggregator a b) c ≡ merge_aggregator a (merge_aggregator b c)
unfolding merge_aggregator
merge_aggregator_assoc (sums {v = v} {v' = v'}) (sums {v' = v''}) = ap sum_of (add_assoc v v' v'')
merge_aggregator_assoc (averages {v = v} {c = c} {v' = v'} {c' = c'})
      (averages {v' = v''} {c' = c''}) =
    rw (add_assoc v v' v'', add_assoc c c' c'') refl
merge_aggregator_assoc (maxima {v = v} {v' = v'}) (maxima {v' = v''}) =
    ap max_of (raise_assoc v v' v'')
merge_aggregator_assoc (minima {v = v} {v' = v'}) (minima {v' = v''}) =
    ap min_of (lower_assoc v v' v'')
merge_aggregator_assoc
      (timers {s = s} {q = q} {l = l} {m = m} {c = c} {s' = s'} {q' = q'} {l' = l'} {m' = m'}
        {c' = c'})
      (timers {s' = s''} {q' = q''} {l' = l''} {m' = m''} {c' = c''}) =
    rw
      (
        add_assoc s s' s'',
        add_assoc q q' q'',
        lower_assoc l l' l'',
        raise_assoc m m' m'',
        add_assoc c c' c'',
      )
      refl

-- An aggregator that `init` has emptied takes over what is merged into it, of its type and in words.
pub merge_aggregator-init :
    {a b : Aggregator} → SameType a b → AllWords b → merge_aggregator (init a) b ≡ b
unfolding merge_aggregator init
merge_aggregator-init (sums {v' = v}) h = ap sum_of (add_zero v (h))
merge_aggregator-init (averages {v' = v} {c' = c}) h = rw (add_zero v (h.0), add_zero c (h.1)) refl
merge_aggregator-init (maxima {v' = v}) h = ap max_of (raise_zero v)
merge_aggregator-init (minima {v' = v}) h = ap min_of (lower_most v (h))
merge_aggregator-init (timers {s' = s} {q' = q} {l' = l} {m' = m} {c' = c}) h =
    rw (add_zero s h.0, add_zero q h.1, lower_most l h.2, raise_zero m, add_zero c h.4) refl

-- Of two aggregators of one type, adding a value to one and then merging it into the other is merging it
-- and then adding the value.
pub merge-merge_value :
    {a b : Aggregator} (val : ℕ)
    → SameType a b
    → merge_aggregator a (merge_value b val) ≡ merge_value (merge_aggregator a b) val
unfolding merge_aggregator merge_value
merge-merge_value val (sums {v = v} {v' = v'}) = ap sum_of (sym (add_assoc v v' val))
merge-merge_value val (averages {v = v} {c = c} {v' = v'} {c' = c'}) =
    rw (add_assoc v v' val, add_assoc c c' 1) refl
merge-merge_value val (maxima {v = v} {v' = v'}) = ap max_of (sym (raise_assoc v v' val))
merge-merge_value val (minima {v = v} {v' = v'}) = ap min_of (sym (lower_assoc v v' val))
merge-merge_value val
      (timers {s = s} {q = q} {l = l} {m = m} {c = c} {s' = s'} {q' = q'} {l' = l'} {m' = m'}
        {c' = c'}) =
    rw
      (
        add_assoc s s' val,
        add_assoc q q' (val * val % word),
        lower_assoc l l' val,
        raise_assoc m m' val,
        add_assoc c c' 1,
      )
      refl

pub type_name-init : (a : Aggregator) → type_name (init a) ≡ type_name a
unfolding init type_name
type_name-init (sum_of v) = refl
type_name-init (avg_of v c) = refl
type_name-init (max_of v) = refl
type_name-init (min_of v) = refl
type_name-init (timer_of s q l m c) = refl
