-- ===== src/Python/Shell/HereDocument.antt =====
-- How a POSIX shell reads a command whose input stands in the lines after it. Where the word that ends
-- the lines is quoted, nothing in them has a meaning.
use agent_vm.Base.{
  Bool, false, Option, none, some, List, [], ◌∷◌, nat_beq, ◌==◌, text_eq, nat_eq, if◌then◌else◌,
  ◌≡◌, refl,
}
use agent_vm.Python.Lines.{cut, attach}
use agent_vm.Python.Shell.{Token, word, operator, between, tokens, step}
use agent_vm.Python.Text.{Text, codes}

-- The words and operators of the command, the lines of its input, and the lines after these.
pub record Reading : Type 0 where
  pub command : List Token
  pub input : List Text
  pub after : List Text

abbrev pub add_line : Text → Option (List Text × List Text) → Option (List Text × List Text)
add_line line none = none
add_line line (some (input, after)) = some (line ∷ input, after)

-- The lines before the one that ends them, and those after it.
unfoldable pub here_document : Text → List Text → Option (List Text × List Text)
here_document end [] = none
here_document end (line ∷ lines) =
    let rest = here_document end lines in
    if line == end then some ([], lines) else add_line line rest

-- The word after `<<`, which is the last of the command.
unfoldable pub ending_word : List Token → Option Text
ending_word [] = none
ending_word (operator sign ∷ word end ∷ []) = if sign == codes "<<" then some end else none
ending_word (token ∷ tokens) = ending_word tokens

-- The text ends with a single quote.
unfoldable pub ends_quoted : Text → Bool
ends_quoted [] = false
ends_quoted (c ∷ []) = nat_beq c 39
ends_quoted (c ∷ d ∷ s) = ends_quoted (d ∷ s)

abbrev with_input : List Token → Option (List Text × List Text) → Option Reading
with_input command none = none
with_input command (some (input, after)) =
    some (record { command = command; input = input; after = after })

abbrev with_ending : List Token → Option Text → List Text → Option Reading
with_ending command none lines = none
with_ending command (some end) lines = with_input command (here_document end lines)

abbrev with_tokens : Option (List Token) → List Text → Option Reading
with_tokens none lines = none
with_tokens (some command) lines = with_ending command (ending_word command) lines

abbrev pub read_lines : List Text → Option Reading
read_lines [] = none
read_lines (line ∷ lines) =
    let reading = with_tokens (tokens between line) lines in
    if ends_quoted line then reading else none

-- The reading of a command that ends with `<<` and a quoted word; none of any other.
unfoldable pub read_command : Text → Option Reading
read_command text = read_lines (cut (nat_beq 10) text)

read_notes :
    read_command (codes "cat > f << 'X'\na $HOME\nX\nrm f")
    ≡ some (record {
      command =
          word (codes "cat")
          ∷ operator (codes ">")
          ∷ word (codes "f")
          ∷ operator (codes "<<")
          ∷ word (codes "X")
          ∷ [];
      input = codes "a $HOME" ∷ [];
      after = codes "rm f" ∷ [];
    })
unfolding read_command here_document ending_word ends_quoted cut attach tokens step
read_notes = refl
