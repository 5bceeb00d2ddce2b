-- ===== src/Suite/Machines.antt =====
-- The machines of the boots: the CPUs that a command line gives one, how many of them fit a host at once, and
-- where Xen's event log is read. `int` and the log's pattern are arguments.
use drtm_tests.Prelude.{
  ℕ, nat_eq, ◌-◌, ◌*◌, ◌/◌, ◌%◌, ◌^◌, ◌==◌, ltb, leb, not, ◌||◌, Option, none, some, List, [], ◌∷◌,
  Text, txt, text_eq, ◌is◌, contains, split_on, if◌then◌else◌, Result, ok, err, index_error,
  runtime_error, ◌>>=◌,
}
use drtm_tests.Machine.{default_smp}
use drtm_tests.Session.{max}

-- `[args[i + 1] for i, arg in enumerate(args[:-1]) if arg == "-smp"]`
unfoldable pub smp_values : List Text → List Text
smp_values [] = []
smp_values (arg ∷ []) = []
smp_values (arg ∷ value ∷ args) =
    let rest = smp_values (value ∷ args) in if arg is txt "-smp" then value ∷ rest else rest

abbrev pub last_of : List Text → Result Text
last_of [] = err index_error
last_of (value ∷ []) = ok value
last_of (_ ∷ value ∷ values) = last_of (value ∷ values)

-- `item.rpartition("=")`, less the separator
unfoldable pub rpartition : Text → Text × Text
rpartition [] = ([], [])
rpartition (c ∷ item) =
    let (key, number) = rpartition item in
    if contains item b'='
    then (c ∷ key, number)
    else if c == b'='
    then ([], item)
    else ([], c ∷ item)

module _ (int : Text → Result ℕ) where
  unfoldable pub count_items : ℕ → List Text → Result ℕ
  unfolding rpartition
  count_items count [] = ok count
  count_items count (item ∷ items) =
      let (key, number) = rpartition item in
      let product = int number >>= λ factor. count_items (count * factor) items in
      let same = count_items count items in
      if contains ([] ∷ txt "cpus" ∷ []) key
      then int number
      else if key is txt "maxcpus"
      then same
      else product

  -- `_smp`
  unfoldable pub smp : List Text → Result ℕ
  unfolding smp_values count_items
  smp args = do value ← last_of (smp_values args); count_items 1 (split_on b',' value)

abbrev pub min : ℕ → ℕ → ℕ
min a b = if leb a b then a else b

-- `os.cpu_count() or 1`
abbrev pub cpu_count : Option ℕ → ℕ
cpu_count none = 1
cpu_count (some n) = max n 1

-- `_workers`, on what `os.cpu_count` returns, on the KiB that /proc/meminfo says are available, 0 if it says
-- nothing, and on a guest's memory in GiB
unfoldable pub workers : Option ℕ → ℕ → ℕ → ℕ
workers cpus available_kib guest_gib =
    let by_cpu = cpu_count cpus / default_smp in
    let by_mem = available_kib / 2 ^ 20 / guest_gib in max 1 (min by_cpu by_mem)

-- What `dd` reads of a Xen's log: so many pages behind so many.
pub record Pages : Type 0 where
  pub skip : ℕ
  pub count : ℕ

-- `_event_log` of a Xen, on the range that its pattern found; a range that ends in front of its base is
-- `backwards`, since its count is negative.
pub data Range : Type 0 where
  unprinted backwards : Range
  pages : Pages → Range

unfoldable pub event_log_range : Option (ℕ × ℕ) → Result Range
event_log_range none = ok unprinted
event_log_range (some (base, end)) =
    let size = if ltb end base then base - end else end - base in
    if not (base % 4096 == 0) || not (size % 4096 == 0)
    then err runtime_error
    else if ltb end base
    then ok backwards
    else ok (pages (record { skip = base / 4096; count = size / 4096 }))
