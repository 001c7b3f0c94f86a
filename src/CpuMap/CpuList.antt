-- ===== src/CpuMap/CpuList.antt =====
-- `_parse_cpu_list` and `_format_cpuset` of src/agentvm/host/cpu_map.py. No part of a list that is
-- read as a core's number holds a minus sign, so cores are natural numbers.
use agent_vm.Base.{
  ℕ, zero, suc, ◌+◌, ◌-◌, true, false, Option, none, some, List, [], ◌∷◌, ◌++◌, ltb, nat_beq,
  if◌then◌else◌, ℤ, pos, negsuc, ◌≡◌, refl,
}
use agent_vm.Python.Result.{Result, ok, raise, ◌>>=◌, value_error}
use agent_vm.Python.Lines.{cut, is_empty}
use agent_vm.Python.Text.{Text, codes, strip, join, parse_int, decimal}

abbrev pub natural : ℤ → Result ℕ
natural (pos n) = ok n
natural (negsuc _) = raise value_error

-- `int(text)` of a text that has no minus sign
abbrev pub parse_natural : Text → Result ℕ
parse_natural text = parse_int text >>= natural

abbrev pub in_front : ℕ → Option (Text × Text) → Option (Text × Text)
in_front c none = none
in_front c (some (before, after)) = some (c ∷ before, after)

-- `segment.split("-", 1)`, or none where there is no dash
unfoldable pub split_at_dash : Text → Option (Text × Text)
split_at_dash [] = none
split_at_dash (c ∷ s) =
    let rest = split_at_dash s in if nat_beq c 45 then some ([], s) else in_front c rest

unfoldable pub count_up : ℕ → ℕ → List ℕ
count_up zero start = []
count_up (suc n) start = start ∷ count_up n (suc start)

-- `range(start, end + 1)`
unfoldable pub inclusive_range : ℕ → ℤ → List ℕ
inclusive_range start (pos end) = count_up (suc end - start) start
inclusive_range start (negsuc _) = []

-- one segment that is not blank
unfoldable pub parse_segment : Text → Result (List ℕ)
parse_segment segment = elim (split_at_dash segment) [
  | none ↦ do cpu ← parse_natural segment; ok (cpu ∷ [])
  | some (start_raw, end_raw) ↦ do
    start ← parse_natural start_raw
    end ← parse_int end_raw
    ok (inclusive_range start end)
]

-- the loop of `_parse_cpu_list`
unfoldable pub parse_segments : List Text → Result (List ℕ)
parse_segments [] = ok []
parse_segments (raw ∷ segments) = elim (is_empty (strip raw)) [
  | true ↦ parse_segments segments
  | false ↦ do cpus ← parse_segment (strip raw); more ← parse_segments segments; ok (cpus ++ more)
]

-- A number at its place in an ascending list, once.
unfoldable pub insert_sorted : ℕ → List ℕ → List ℕ
insert_sorted x [] = x ∷ []
insert_sorted x (y ∷ ys) =
    let rest = insert_sorted x ys in
    if ltb x y then x ∷ y ∷ ys else if nat_beq x y then y ∷ ys else y ∷ rest

-- `sorted(set(xs))`
unfoldable pub sorted_set : List ℕ → List ℕ
sorted_set [] = []
sorted_set (x ∷ xs) = insert_sorted x (sorted_set xs)

unfoldable pub parse_cpu_list : Text → Result (List ℕ)
parse_cpu_list value = do cpus ← parse_segments (cut (nat_beq 44) value); ok (sorted_set cpus)

-- `str(start) if start == end else f"{start}-{end}"`
unfoldable pub range_text : ℕ → ℕ → Text
range_text start end =
    if nat_beq start end then decimal start else decimal start ++ 45 ∷ decimal end

-- the loop of `_format_cpuset`, with the range that is open
unfoldable pub ranges : ℕ → ℕ → List ℕ → List Text
ranges start end [] = range_text start end ∷ []
ranges start end (core ∷ cores) = elim (nat_beq core (end + 1)) [
  | true ↦ ranges start core cores
  | false ↦ range_text start end ∷ ranges core core cores
]

abbrev pub format_ordered : List ℕ → Text
format_ordered [] = []
format_ordered (first ∷ cores) = join (codes ",") (ranges first first cores)

unfoldable pub format_cpuset : List ℕ → Text
format_cpuset cores = format_ordered (sorted_set cores)

formatted : format_cpuset (7 ∷ 0 ∷ 2 ∷ 1 ∷ 2 ∷ 10 ∷ 9 ∷ []) ≡ codes "0-2,7,9-10"
unfolding format_cpuset sorted_set insert_sorted ranges range_text decimal join
formatted = refl

parsed : parse_cpu_list (codes " 0-2, ,7,5-4,9-10,1") ≡ ok (0 ∷ 1 ∷ 2 ∷ 7 ∷ 9 ∷ 10 ∷ [])
unfolding parse_cpu_list parse_segments parse_segment split_at_dash inclusive_range count_up
    sorted_set insert_sorted cut strip parse_int
parsed = refl
