-- ===== src/CpuMap/RoundTrip.antt =====
-- What `_format_cpuset` writes, `_parse_cpu_list` reads (src/agentvm/host/cpu_map.py).
use agent_vm.Base.{
  ℕ, zero, suc, ◌+◌, ◌-◌, ◌≤◌, false, none, some, List, [], ◌∷◌, ◌++◌, nat_beq, nat_beq_iff, any,
  All, All-append, ◌≡◌, refl, sym, ◌∙◌, ap, arith, Bool-cases, inl, inr, append_assoc, append-nil,
}
use agent_vm.Python.Result.{ok}
use agent_vm.Python.Lines.{cut, is_empty}
use agent_vm.Python.Lines.Pieces.{IsPiece, cut-join}
use agent_vm.Python.Text.{Text, codes, strip, strip_left, strip_right, join, scan, decimal}
use agent_vm.Python.Text.Decimal.{scan-decimal}
use agent_vm.Python.Text.Digits.{
  IsDigits, IsPlain, decimal-IsDigits, IsDigits-IsPlain, strip_plain, parse_int-decimal,
}
use agent_vm.CpuMap.CpuList.{
  split_at_dash, count_up, inclusive_range, parse_segment, parse_segments, sorted_set,
  parse_cpu_list, range_text, ranges, format_cpuset, format_ordered,
}
use agent_vm.CpuMap.Ascending.{IsAscending, sorted_set-IsAscending, sorted_set_ascending}

split_at_dash_digits : (s : Text) → IsDigits s → split_at_dash s ≡ none
unfolding split_at_dash
split_at_dash_digits [] _ = refl
split_at_dash_digits (c ∷ s) (hc, h) = ground (arith, split_at_dash_digits s h)

split_at_dash-append : (a b : Text) → IsDigits a → split_at_dash (a ++ 45 ∷ b) ≡ some (a, b)
unfolding split_at_dash
split_at_dash-append [] b _ = refl
split_at_dash-append (c ∷ a) b (hc, h) = ground (arith, split_at_dash-append a b h)

IsPlain-IsPiece : (p : Text) → IsPlain p → IsPiece 44 p
unfolding any
IsPlain-IsPiece [] _ = refl
IsPlain-IsPiece (c ∷ p) (hc, h) = ground (arith, IsPlain-IsPiece p h)

All-IsPiece : (ps : List Text) → All IsPlain ps → All (IsPiece 44) ps
All-IsPiece [] _ = tt
All-IsPiece (p ∷ ps) (hp, h) = (IsPlain-IsPiece p hp, All-IsPiece ps h)

range_text-IsPlain : (s e : ℕ) → IsPlain (range_text s e)
unfolding range_text
range_text-IsPlain s e =
    let hs = IsDigits-IsPlain (decimal s) (decimal-IsDigits s) in
    let he = IsDigits-IsPlain (decimal e) (decimal-IsDigits e) in
    elim (Bool-cases (nat_beq s e)) [
      | inl same ↦ rw same hs
      | inr other ↦ rw other (All-append _ (decimal s) (45 ∷ decimal e) hs (refl, he))
    ]

ranges-IsPlain : (s e : ℕ) (cores : List ℕ) → All IsPlain (ranges s e cores)
unfolding ranges
ranges-IsPlain s e [] = (range_text-IsPlain s e, tt)
ranges-IsPlain s e (core ∷ cores) = elim (Bool-cases (nat_beq core (e + 1))) [
  | inl adjacent ↦ rw (ranges, adjacent) (ranges-IsPlain s core cores)
  | inr apart ↦ rw (ranges, apart) (range_text-IsPlain s e, ranges-IsPlain core core cores)
]

parse_segment-decimal : (n : ℕ) → parse_segment (decimal n) ≡ ok (n ∷ [])
unfolding parse_segment
parse_segment-decimal n =
    rw (parse_segment, split_at_dash_digits (decimal n) (decimal-IsDigits n), parse_int-decimal n)
      refl

parse_segment_dash :
    (s e : ℕ) → parse_segment (decimal s ++ 45 ∷ decimal e) ≡ ok (count_up (suc e - s) s)
unfolding parse_segment inclusive_range
parse_segment_dash s e =
    rw
      (
        parse_segment,
        split_at_dash-append (decimal s) (decimal e) (decimal-IsDigits s),
        parse_int-decimal s,
        parse_int-decimal e,
      )
      refl

count_up_one : (s e : ℕ) → s ≡ e → s ∷ [] ≡ count_up (suc e - s) s
unfolding count_up
count_up_one s e h = let one : suc e - s ≡ 1 = omega (arith, h) in rw one refl

parse_segment-range_text : (s e : ℕ) → parse_segment (range_text s e) ≡ ok (count_up (suc e - s) s)
unfolding range_text
parse_segment-range_text s e = elim (Bool-cases (nat_beq s e)) [
  | inl same ↦
      rw same (parse_segment-decimal s ∙ ap ok (count_up_one s e ((nat_beq_iff s e).0 same)))
  | inr other ↦ rw other (parse_segment_dash s e)
]

scan_nonempty : (s rest : Text) (n : ℕ) → scan s false 0 ≡ some n → is_empty (s ++ rest) ≡ false
unfolding scan
scan_nonempty [] rest n h = absurd cc
scan_nonempty (c ∷ s) rest n h = refl

is_empty-decimal : (n : ℕ) (rest : Text) → is_empty (decimal n ++ rest) ≡ false
is_empty-decimal n rest = scan_nonempty (decimal n) rest n (scan-decimal n)

is_empty-range_text : (s e : ℕ) → is_empty (range_text s e) ≡ false
unfolding range_text
is_empty-range_text s e = elim (Bool-cases (nat_beq s e)) [
  | inl same ↦ rw same (ap is_empty (sym (append-nil (decimal s))) ∙ is_empty-decimal s [])
  | inr other ↦ rw other (is_empty-decimal s (45 ∷ decimal e))
]

parse_segments-range_text :
    (s e : ℕ) (segments : List Text) (more : List ℕ)
    → parse_segments segments ≡ ok more
    → parse_segments (range_text s e ∷ segments) ≡ ok (count_up (suc e - s) s ++ more)
unfolding parse_segments
parse_segments-range_text s e segments more h =
    let stripped = strip_plain (range_text s e) (range_text-IsPlain s e) in
    rw
      (parse_segments, stripped, is_empty-range_text s e, stripped, parse_segment-range_text s e, h)
      refl

count_up_last : (n s : ℕ) → count_up (suc n) s ≡ count_up n s ++ (s + n) ∷ []
unfolding count_up
count_up_last zero s = let same : s + 0 ≡ s = omega arith in rw same refl
count_up_last (suc n) s =
    let same : suc s + n ≡ s + suc n = omega arith in
    ap (◌∷◌ s) (count_up_last n (suc s) ∙ ap (λ x. count_up n (suc s) ++ x ∷ []) same)

count_up_adjacent :
    (s e core : ℕ)
    → s ≤ e
    → core ≡ e + 1
    → count_up (suc core - s) s ≡ count_up (suc e - s) s ++ core ∷ []
count_up_adjacent s e core h same =
    let more : suc core - s ≡ suc (suc e - s) = omega (arith, h, same) in
    let last : s + (suc e - s) ≡ core = omega (arith, h, same) in
    rw more (count_up_last (suc e - s) s ∙ ap (λ x. count_up (suc e - s) s ++ x ∷ []) last)

parse_segments-ranges :
    (s e : ℕ) (cores : List ℕ)
    → s ≤ e
    → parse_segments (ranges s e cores) ≡ ok (count_up (suc e - s) s ++ cores)
unfolding ranges
parse_segments-ranges s e [] h = parse_segments-range_text s e [] [] (unfold parse_segments in refl)
parse_segments-ranges s e (core ∷ cores) h = elim (Bool-cases (nat_beq core (e + 1))) [
  | inl adjacent ↦
      let same = (nat_beq_iff core (e + 1)).0 adjacent in
      rw (ranges, adjacent)
        (parse_segments-ranges s core cores (omega (arith, h, same))
          ∙ ap ok (
              rw (count_up_adjacent s e core h same)
                (append_assoc (count_up (suc e - s) s) (core ∷ []) cores)))
  | inr apart ↦
      let one : suc core - core ≡ 1 = omega arith in
      rw (ranges, apart)
        (parse_segments-range_text s e (ranges core core cores) (core ∷ cores)
          (parse_segments-ranges core core cores (omega arith) ∙ unfold count_up in rw one refl))
]

ranges_nonempty :
    (s e : ℕ) (cores : List ℕ) → (p : Text) × (ps : List Text) × (ranges s e cores ≡ p ∷ ps)
unfolding ranges
ranges_nonempty s e [] = (range_text s e, [], refl)
ranges_nonempty s e (core ∷ cores) = elim (Bool-cases (nat_beq core (e + 1))) [
  | inl adjacent ↦ rw (ranges, adjacent) (ranges_nonempty s core cores)
  | inr apart ↦ rw (ranges, apart) (range_text s e, ranges core core cores, refl)
]

cut-join-ranges :
    (s e : ℕ) (cores : List ℕ)
    → cut (nat_beq 44) (join (codes ",") (ranges s e cores)) ≡ ranges s e cores
cut-join-ranges s e cores =
    let (p, ps, h) = ranges_nonempty s e cores in
    rw h (cut-join 44 p ps (All-IsPiece (p ∷ ps) (rw h at (ranges-IsPlain s e cores))))

parse_cpu_list-ordered :
    (cores : List ℕ) → IsAscending cores → parse_cpu_list (format_ordered cores) ≡ ok cores
unfolding parse_cpu_list
parse_cpu_list-ordered [] _ =
    unfold cut parse_segments strip strip_left strip_right sorted_set in refl
parse_cpu_list-ordered (first ∷ cores) h =
    let one : suc first - first ≡ 1 = omega arith in
    let read : parse_segments (ranges first first cores) ≡ ok (first ∷ cores) =
      parse_segments-ranges first first cores (omega arith) ∙ unfold count_up in rw one refl in
    rw
      (
        parse_cpu_list,
        cut-join-ranges first first cores,
        read,
        sorted_set_ascending (first ∷ cores) h,
      )
      refl

-- `_parse_cpu_list` reads from the text of `_format_cpuset` the cores that were written, ascending and
-- each once.
pub parse_cpu_list-format_cpuset :
    (cores : List ℕ) → parse_cpu_list (format_cpuset cores) ≡ ok (sorted_set cores)
unfolding format_cpuset
parse_cpu_list-format_cpuset cores =
    parse_cpu_list-ordered (sorted_set cores) (sorted_set-IsAscending cores)
