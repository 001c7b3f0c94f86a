-- ===== src/Python/Shell.antt =====
-- `shlex.quote`, and how a POSIX shell cuts a command into words and operators.
pub mod HereDocument
use agent_vm.Base.{
  ◌==◌, text_eq, Bool-cases, inl, inr, append_assoc, append-nil, ap, ◌∙◌, sym, arith, nat_beq_iff,
  ℕ, Bool, true, ◌&&◌, ◌||◌, Option, none, some, List, [], ◌∷◌, ◌++◌, leb, nat_beq, if◌then◌else◌,
  nat_eq, ◌≡◌, refl,
}
use agent_vm.Python.Text.{Text, codes}

-- `[a-zA-Z0-9_@%+=:,./-]`
abbrev pub is_safe : ℕ → Bool
is_safe c =
    (leb 97 c && leb c 122)
    || (leb 64 c && leb c 90)
    || (leb 43 c && leb c 58)
    || nat_beq c 95
    || nat_beq c 37
    || nat_beq c 61

abbrev pub all_safe : Text → Bool
all_safe [] = true
all_safe (c ∷ s) = is_safe c && all_safe s

-- `s.replace("'", "'\"'\"'")`
unfoldable pub escape : Text → Text
escape [] = []
escape (c ∷ s) =
    let rest = escape s in if nat_beq c 39 then 39 ∷ 34 ∷ 39 ∷ 34 ∷ 39 ∷ rest else c ∷ rest

-- `shlex.quote`
unfoldable pub quote : Text → Text
quote [] = codes "''"
quote (c ∷ s) = if all_safe (c ∷ s) then c ∷ s else 39 ∷ (escape (c ∷ s) ++ codes "'")

pub data Token : Type 0 where
  word operator : Text → Token

-- Where the reading stands: between tokens, in an operator, or in a word and its quotes, with the text
-- read so far.
pub data Mode : Type 0 where
  between : Mode
  in_operator in_word in_single_quotes in_double_quotes : Text → Mode

abbrev pub close : Mode → Option (List Token)
close between = some []
close (in_operator t) = some (operator t ∷ [])
close (in_word t) = some (word t ∷ [])
close _ = none

abbrev pub push : Token → Option (List Token) → Option (List Token)
push token none = none
push token (some tokens) = some (token ∷ tokens)

abbrev pub is_blank : ℕ → Bool
is_blank c = nat_beq c 32 || nat_beq c 9

-- the operators `|`, `||`, `>`, `>>`, `<` and `<<`
abbrev pub is_operator : ℕ → Bool
is_operator c = nat_beq c 124 || nat_beq c 62 || nat_beq c 60

-- what has a meaning inside double quotes
abbrev pub is_special : ℕ → Bool
is_special c = nat_beq c 36 || nat_beq c 92 || nat_beq c 96

abbrev pub start : ℕ → Option Mode
start c =
    if is_blank c
    then some between
    else if is_operator c
    then some (in_operator (c ∷ []))
    else if nat_beq c 39
    then some (in_single_quotes [])
    else if nat_beq c 34
    then some (in_double_quotes [])
    else if is_safe c
    then some (in_word (c ∷ []))
    else none

abbrev emit_token : Token → Option Mode → Option (Option Token × Mode)
emit_token token none = none
emit_token token (some mode) = some (some token, mode)

abbrev silently : Option Mode → Option (Option Token × Mode)
silently none = none
silently (some mode) = some (none, mode)

-- The token that a character ends, and where the reading stands after it; none of a character that has
-- another meaning outside quotes, or of an operator that touches a word.
unfoldable pub step : Mode → ℕ → Option (Option Token × Mode)
step between c = silently (start c)
step (in_operator t) c =
    if t == c ∷ []
    then some (none, in_operator (c ∷ c ∷ []))
    else if is_operator c
    then none
    else emit_token (operator t) (start c)
step (in_word t) c =
    if nat_beq c 39
    then some (none, in_single_quotes t)
    else if nat_beq c 34
    then some (none, in_double_quotes t)
    else if is_blank c
    then some (some (word t), between)
    else if is_safe c
    then some (none, in_word (t ++ c ∷ []))
    else none
step (in_single_quotes t) c =
    if nat_beq c 39 then some (none, in_word t) else some (none, in_single_quotes (t ++ c ∷ []))
step (in_double_quotes t) c =
    if nat_beq c 34
    then some (none, in_word t)
    else if is_special c
    then none
    else some (none, in_double_quotes (t ++ c ∷ []))

abbrev pub resume :
    Option (Option Token × Mode) → (Mode → Option (List Token)) → Option (List Token)
resume none rest = none
resume (some (none, mode)) rest = rest mode
resume (some (some token, mode)) rest = push token (rest mode)

-- The tokens of the rest of a command; none of one that ends in quotes or that is not read.
unfoldable pub tokens : Mode → Text → Option (List Token)
unfolding step
tokens mode [] = close mode
tokens mode (c ∷ s) = resume (step mode c) (λ next. tokens next s)

read_tokens : tokens between (codes "grep -q '/mnt/a b' f||x") ≡ none
unfolding tokens
read_tokens = refl

read_quoted :
    (tokens between (codes "mkdir -p " ++ quote (codes "it's; rm -rf $HOME"))
      ≡ some (word (codes "mkdir") ∷ word (codes "-p") ∷ word (codes "it's; rm -rf $HOME") ∷ []))
    × (tokens between (codes "true || echo x >> 'a''b'")
        ≡ some (
            word (codes "true")
            ∷ operator (codes "||")
            ∷ word (codes "echo")
            ∷ word (codes "x")
            ∷ operator (codes ">>")
            ∷ word (codes "ab")
            ∷ []))
    × (tokens between (codes "mkdir -p $HOME") ≡ none)
unfolding tokens quote escape
read_quoted = (refl, refl, refl)

-- Inside single quotes, an escaped text and the quote that ends it are read as the text.
tokens-escape :
    (s t rest : Text)
    → tokens (in_single_quotes t) (escape s ++ 39 ∷ rest) ≡ tokens (in_word (t ++ s)) rest
unfolding tokens escape
tokens-escape [] t rest = ap (λ x. tokens (in_word x) rest) (sym (append-nil t))
tokens-escape (c ∷ s) t rest = elim (Bool-cases (nat_beq c 39)) [
  | inl same ↦
      let equal = (nat_beq_iff c 39).0 same in
      rw (same, equal)
        (tokens-escape s (t ++ 39 ∷ []) rest
          ∙ ap (λ x. tokens (in_word x) rest) (append_assoc t (39 ∷ []) s))
  | inr other ↦
      rw (other, tokens, step, other)
        (tokens-escape s (t ++ c ∷ []) rest
          ∙ ap (λ x. tokens (in_word x) rest) (append_assoc t (c ∷ []) s))
]

step_safe :
    (c : ℕ) (t : Text) → is_safe c ≡ true → step (in_word t) c ≡ some (none, in_word (t ++ c ∷ []))
unfolding step
step_safe c t h = ground arith

start_safe : (c : ℕ) → is_safe c ≡ true → step between c ≡ some (none, in_word (c ∷ []))
unfolding step
start_safe c h = ground arith

tokens_safe :
    (s t rest : Text)
    → all_safe s ≡ true
    → tokens (in_word t) (s ++ rest) ≡ tokens (in_word (t ++ s)) rest
unfolding tokens
tokens_safe [] t rest h = ap (λ x. tokens (in_word x) rest) (sym (append-nil t))
tokens_safe (c ∷ s) t rest h =
    let (first, others) : (is_safe c ≡ true) × (all_safe s ≡ true) = (ground arith, ground arith) in
    rw (tokens, step_safe c t first)
      (tokens_safe s (t ++ c ∷ []) rest others
        ∙ ap (λ x. tokens (in_word x) rest) (append_assoc t (c ∷ []) s))

-- Between tokens, a quoted text begins a word that is the text.
pub tokens-quote : (s rest : Text) → tokens between (quote s ++ rest) ≡ tokens (in_word s) rest
unfolding tokens quote
tokens-quote [] rest = unfold step in refl
tokens-quote (c ∷ s) rest = elim (Bool-cases (all_safe (c ∷ s))) [
  | inl safe ↦
      let (first, others) : (is_safe c ≡ true) × (all_safe s ≡ true) =
        (ground arith, ground arith) in
      rw (safe, tokens, start_safe c first) (tokens_safe s (c ∷ []) rest others)
  | inr unsafe ↦ rw unsafe (
      ap (tokens (in_single_quotes [])) (append_assoc (escape (c ∷ s)) (39 ∷ []) rest)
      ∙ tokens-escape (c ∷ s) [] rest)
]
