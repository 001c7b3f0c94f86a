-- ===== src/Python/Text.antt =====
-- Python's `str` as a list of code points: the methods that the sources call, `int(text)` and
-- the decimal text of an integer. Case is changed for ASCII letters alone, and `int` reads ASCII
-- digits alone.
pub mod Decimal
pub mod Digits
pub mod Sign
use Prim.Native.Char.{code}
use agent_vm.Base.{
  ℕ, zero, suc, ◌+◌, ◌-◌, ◌*◌, ◌/◌, ◌%◌, String, Bool, true, false, ◌&&◌, ◌||◌, Option, none, some,
  List, [], ◌∷◌, ◌++◌, map, leb, nat_beq, text_beq, if◌then◌else◌, ℤ, pos, negsuc, ◌≡◌, refl,
}
use agent_vm.Python.Result.{Result, ok, raise, value_error}

abbrev pub Text : Type 0
Text = List ℕ

-- The code points of a literal.
abbrev pub codes : String → Text
codes String.[] = []
codes (String.◌∷◌ c s) = code c ∷ codes s

-- `str.isspace` for one character
unfoldable pub is_space : ℕ → Bool
is_space c =
    (leb 9 c && leb c 13)
    || (leb 28 c && leb c 32)
    || nat_beq c 133
    || nat_beq c 160
    || nat_beq c 5760
    || (leb 8192 c && leb c 8202)
    || nat_beq c 8232
    || nat_beq c 8233
    || nat_beq c 8239
    || nat_beq c 8287
    || nat_beq c 12288

unfoldable pub strip_left : Text → Text
strip_left [] = []
strip_left (c ∷ s) = if is_space c then strip_left s else c ∷ s

abbrev cons_unless_blank : ℕ → Text → Text
unfolding is_space
cons_unless_blank c [] = if is_space c then [] else c ∷ []
cons_unless_blank c (d ∷ s) = c ∷ d ∷ s

unfoldable pub strip_right : Text → Text
unfolding is_space
strip_right [] = []
strip_right (c ∷ s) = cons_unless_blank c (strip_right s)

-- `text.strip()`
unfoldable pub strip : Text → Text
unfolding strip_left strip_right is_space
strip s = strip_right (strip_left s)

-- `text.lower()`, for ASCII letters
unfoldable pub lower : Text → Text
lower = map (λ c. if leb 65 c && leb c 90 then c + 32 else c)

-- `text.startswith(prefix)`
unfoldable pub starts_with : Text → Text → Bool
starts_with s [] = true
starts_with [] (p ∷ ps) = false
starts_with (c ∷ s) (p ∷ ps) = nat_beq c p && starts_with s ps

-- `text.removesuffix(suffix)` with the answer to `text.endswith(suffix)`
unfoldable pub split_suffix : Text → Text → Option Text
split_suffix [] suffix = if text_beq [] suffix then some [] else none
split_suffix (c ∷ s) suffix =
    let rest = split_suffix s suffix in
    if text_beq (c ∷ s) suffix
    then some []
    else (elim rest [ none ↦ none | some front ↦ some (c ∷ front) ])

-- `separator.join(parts)`
unfoldable pub join : Text → List Text → Text
join separator [] = []
join separator (p ∷ []) = p
join separator (p ∷ q ∷ ps) = p ++ (separator ++ join separator (q ∷ ps))

abbrev pub is_digit : ℕ → Bool
is_digit c = leb 48 c && leb c 57

-- The digits of an integer literal; one underscore may stand between two of them.
unfoldable pub scan : Text → Bool → ℕ → Option ℕ
scan [] after_digit n = if after_digit then some n else none
scan (c ∷ s) after_digit n =
    let digit = scan s true (n * 10 + (c - 48)) in
    let skipped = scan s false n in
    if is_digit c then digit else if nat_beq c 95 && after_digit then skipped else none

abbrev pub neg : ℕ → ℤ
neg zero = pos 0
neg (suc n) = negsuc n

abbrev pub literal : (ℕ → ℤ) → Option ℕ → Result ℤ
literal sign none = raise value_error
literal sign (some n) = ok (sign n)

unfoldable pub parse_signed : Text → Result ℤ
unfolding scan
parse_signed [] = raise value_error
parse_signed (c ∷ s) =
    if nat_beq c 45
    then literal neg (scan s false 0)
    else if nat_beq c 43
    then literal pos (scan s false 0)
    else literal pos (scan (c ∷ s) false 0)

-- `int(text)`
unfoldable pub parse_int : Text → Result ℤ
unfolding parse_signed strip
parse_int s = parse_signed (strip s)

-- The digits of `n` in front of `out`, on fuel: `n` rounds are enough.
unfoldable pub emit : ℕ → ℕ → Text → Text
emit zero n out = out
emit (suc f) n out =
    let rest = emit f (n / 10) ((48 + n % 10) ∷ out) in if nat_beq n 0 then out else rest

unfoldable pub decimal : ℕ → Text
unfolding emit
decimal n = if nat_beq n 0 then 48 ∷ [] else emit n n []

-- `str(z)`
unfoldable pub int_text : ℤ → Text
unfolding decimal
int_text (pos n) = decimal n
int_text (negsuc n) = 45 ∷ decimal (suc n)

int_texts : (int_text (pos 4096) ≡ codes "4096") × (int_text (negsuc 11) ≡ codes "-12")
unfolding int_text
int_texts = (refl, refl)

parse_ints :
    (parse_int (codes " 1_000 ") ≡ ok (pos 1000))
    × (parse_int (codes "-7") ≡ ok (negsuc 6))
    × (parse_int (codes "1__0") ≡ raise value_error)
    × (parse_int (codes "") ≡ raise value_error)
unfolding parse_int
parse_ints = (refl, refl, refl, refl)

suffixes :
    (split_suffix (codes "30 minutes") (codes "minutes") ≡ some (codes "30 "))
    × (split_suffix (codes "30") (codes "minutes") ≡ none)
unfolding split_suffix
suffixes = (refl, refl)
