-- ===== src/Stat.antt =====
-- stat/counter.go and stat/latency.go: Counter, LatencyMeter and fmtDur. A method of Counter holds its
-- lock for the whole body, so it is a function from state to state.
mod Tests
pub mod Laws
use goxdr.Prelude.{
  ℕ, suc, ◌-◌, ◌*◌, ◌/◌, ◌^◌, ◌<◌, Option, none, some, List, [], ◌∷◌, leb, ltb, Bool, ◌%◌,
  if◌then◌else◌,
}

-- What is used of float64, and `last.Sub(first).Seconds()`, where none is the zero time
pub record Floats (F : Type 0) : Type 0 where
  pub zero : F
  pub add : F → F → F
  pub sub : F → F → F
  pub mul : F → F → F
  pub div : F → F → F
  pub sqrt : F → F
  pub min : F → F → F
  pub max : F → F → F
  pub of_nat : ℕ → F
  pub seconds : Option ℕ → Option ℕ → F

-- `Counter`; times are nanoseconds.
pub record Counter (F : Type 0) : Type 0 where
  pub first : Option ℕ
  pub last : Option ℕ
  pub sum : F
  pub sum2 : F
  pub min : F
  pub max : F
  pub count : ℕ

-- `CounterStats`
pub record CounterStats (F : Type 0) : Type 0 where
  pub min : F
  pub max : F
  pub average : F
  pub stddev : F
  pub count : ℕ
  pub speed_per_sec : F

module _ {F : Type 0} (O : Floats F) where
  -- A zero value
  abbrev pub new_counter : Counter F
  new_counter = record {
    first = none;
    last = none;
    sum = O.zero;
    sum2 = O.zero;
    min = O.zero;
    max = O.zero;
    count = 0;
  }

  -- `Add`, at the time `now`: the new state, whose count it returns
  unfoldable pub add : ℕ → F → Counter F → Counter F
  add now v x = elim x.first [
    | none ↦ record x { first = some now; min = v; max = v }
    | some t ↦ record x {
      min = O.min x.min v;
      max = O.max x.max v;
      sum = O.add x.sum v;
      sum2 = O.add x.sum2 (O.mul v v);
      count = suc x.count;
      last = some now;
    }
  ]

  unfoldable pub average : Counter F → F
  average x = O.div x.sum (O.of_nat x.count)

  unfoldable pub stddev : Counter F → F
  stddev x =
      let avg = O.div x.sum (O.of_nat x.count) in
      let avg2 = O.div x.sum2 (O.of_nat x.count) in O.sqrt (O.sub avg2 (O.mul avg avg))

  unfoldable pub speed_per_sec : Counter F → F
  speed_per_sec x = O.div x.sum (O.seconds x.first x.last)

  -- `Stats`
  unfoldable pub stats : Counter F → CounterStats F
  unfolding average stddev speed_per_sec
  stats x = record {
    min = x.min;
    max = x.max;
    average = average x;
    stddev = stddev x;
    count = x.count;
    speed_per_sec = speed_per_sec x;
  }

  -- `LatencyMeter.Add` of a duration, and `Stop` of a span that started at `start`, of which `time.Since`
  -- takes the time `since`
  unfoldable pub meter_add : ℕ → ℕ → Counter F → Counter F
  unfolding add
  meter_add now d x = add now (O.of_nat d) x

  unfoldable pub stop : ℕ → ℕ → ℕ → Counter F → Counter F
  unfolding meter_add
  stop start since now x = meter_add now (since - start) x

-- The units of `fmtDur` that are printed with %d, in nanoseconds
pub data DurUnit : Type 0 where
  minutes : DurUnit
  seconds : DurUnit
  milliseconds : DurUnit
  microseconds : DurUnit
  nanoseconds : DurUnit

abbrev pub size : DurUnit → ℕ
size minutes = 60000000000
size seconds = 1000000000
size milliseconds = 1000000
size microseconds = 1000
size nanoseconds = 1

abbrev pub hour : ℕ
hour = 3600000000000

-- What is printed: tenths of an hour, or a whole number of a unit
pub data DurText : Type 0 where
  hour_tenths : ℕ → DurText
  whole : DurUnit → ℕ → DurText

-- `%.1f` of `d.Hours()`: the nearest tenth. `up` says whether the float64 of a duration at half a tenth
-- is rounded up. Below 2 ^ 11 hours its error moves no other duration over half a tenth.
unfoldable pub round_tenths : (ℕ → Bool) → ℕ → ℕ
round_tenths up d =
    let t = d * 10 / hour in
    let r = d * 10 % hour in
    if ltb hour (2 * r) then suc t else if ltb (2 * r) hour then t else if up d then suc t else t

-- `fmtDur` of a duration that is not negative
unfoldable pub fmt_dur : (ℕ → Bool) → ℕ → DurText
unfolding round_tenths
fmt_dur up d =
    if leb hour d
    then hour_tenths (round_tenths up d)
    else if leb (size minutes) d
    then whole minutes (d / size minutes)
    else if leb (size seconds) d
    then whole seconds (d / size seconds)
    else if leb (size milliseconds) d
    then whole milliseconds (d / size milliseconds)
    else if leb (size microseconds) d
    then whole microseconds (d / size microseconds)
    else whole nanoseconds d
