-- ===== src/Accumulator/Aggregators.antt =====
-- The aggregators of src/accumulator: SumAggregator.h, AvgAggregator.h, ArithmeticMaxAggregator.h,
-- ArithmeticMinAggregator.h and TimerAggregator.h, for values of type `uint64_t`.
pub mod Laws
use prpc.Base.{ℕ, ◌+◌, ◌-◌, ◌*◌, ◌%◌, ◌^◌, Bool, true, false, ltb, if◌then◌else◌}

abbrev pub word : ℕ
word = 2 ^ 64

-- `+` of two words
abbrev pub add : ℕ → ℕ → ℕ
add a b = (a + b) % word

-- An `AggregatorBase*`: the class of the object, and its fields.
pub data Aggregator : Type 0 where
  sum_of : (value : ℕ) → Aggregator
  avg_of : (value count : ℕ) → Aggregator
  max_of : (value : ℕ) → Aggregator
  min_of : (value : ℕ) → Aggregator
  timer_of : (sum sum2 least most count : ℕ) → Aggregator

-- The type's name, as the number of the type.
unfoldable pub type_name : Aggregator → ℕ
type_name (sum_of v) = 0
type_name (avg_of v c) = 1
type_name (max_of v) = 2
type_name (min_of v) = 3
type_name (timer_of s q l m c) = 4

-- `if (val > _value) _value = val`
abbrev pub raise : ℕ → ℕ → ℕ
raise value val = if ltb value val then val else value

-- `if (val < _value) _value = val`
abbrev pub lower : ℕ → ℕ → ℕ
lower value val = if ltb val value then val else value

-- `numeric_limits<VAL>::max()`
abbrev pub greatest : ℕ
greatest = word - 1

abbrev pub init_sum : Aggregator
init_sum = sum_of 0

abbrev pub init_avg : Aggregator
init_avg = avg_of 0 0

-- `numeric_limits<VAL>::min()` is 0
abbrev pub init_max : Aggregator
init_max = max_of 0

abbrev pub init_min : Aggregator
init_min = min_of greatest

abbrev pub init_timer : Aggregator
init_timer = timer_of 0 0 greatest 0 0

-- `AvgAggregator::merge_value_internal`
abbrev pub merge_avg : ℕ → ℕ → ℕ → ℕ → Aggregator
merge_avg v c val cnt = avg_of (add v val) (add c cnt)

abbrev pub add_to_timer : ℕ → ℕ → ℕ → ℕ → ℕ → ℕ → Aggregator
add_to_timer s q l m c val =
    timer_of (add s val) (add q (val * val % word)) (lower l val) (raise m val) (add c 1)

unfoldable pub init : Aggregator → Aggregator
init (sum_of v) = init_sum
init (avg_of v c) = init_avg
init (max_of v) = init_max
init (min_of v) = init_min
init (timer_of s q l m c) = init_timer

unfoldable pub merge_value : Aggregator → ℕ → Aggregator
merge_value (sum_of v) val = sum_of (add v val)
merge_value (avg_of v c) val = merge_avg v c val 1
merge_value (max_of v) val = max_of (raise v val)
merge_value (min_of v) val = min_of (lower v val)
merge_value (timer_of s q l m c) val = add_to_timer s q l m c val

-- Both are of one type: the server tests it.
unfoldable pub merge_aggregator : Aggregator → Aggregator → Aggregator
unfolding merge_value
merge_aggregator (sum_of v) (sum_of w) = merge_value (sum_of v) w
merge_aggregator (avg_of v c) (avg_of w d) = merge_avg v c w d
merge_aggregator (max_of v) (max_of w) = merge_value (max_of v) w
merge_aggregator (min_of v) (min_of w) = merge_value (min_of v) w
merge_aggregator (timer_of s q l m c) (timer_of s' q' l' m' c') =
    timer_of (add s s') (add q q') (lower l l') (raise m m') (add c c')
merge_aggregator a b = a
