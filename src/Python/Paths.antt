-- ===== src/Python/Paths.antt =====
-- The part of Python's `pathlib` that the sources use. A path is its root and its components.
use agent_vm.Base.{
  Bool, true, false, ◌&&◌, ◌||◌, not, List, [], ◌∷◌, ◌++◌, filter, nat_beq, text_beq, text_beq_iff,
  if◌then◌else◌, Eq, ◌==◌, text_eq, ◌≡◌, ◌↔◌, refl, arith,
}
use agent_vm.Python.Lines.{cut, is_empty}
use agent_vm.Python.Text.{Text, codes, join, starts_with}

pub record FilePath : Type 0 where
  pub root : Text
  pub components : List Text

abbrev pub root_of : Text → Text
root_of text =
    if starts_with text (codes "//") && not (starts_with text (codes "///"))
    then codes "//"
    else if starts_with text (codes "/")
    then codes "/"
    else []

unfoldable pub components_of : Text → List Text
components_of text = filter (λ c. not (is_empty c || c == codes ".")) (cut (nat_beq 47) text)

-- `Path(text)`
unfoldable pub path_of : Text → FilePath
path_of text = record { root = root_of text; components = components_of text }

-- `path / text`, for a relative text
unfoldable pub under : FilePath → Text → FilePath
under path text = record { root = path.root; components = path.components ++ components_of text }

abbrev pub dot_if_empty : Text → Text
dot_if_empty [] = codes "."
dot_if_empty (c ∷ text) = c ∷ text

-- `str(path)`
unfoldable pub path_text : FilePath → Text
path_text path = dot_if_empty (path.root ++ join (codes "/") path.components)

abbrev pub drop_last : List Text → List Text
drop_last [] = []
drop_last (c ∷ []) = []
drop_last (c ∷ d ∷ cs) = c ∷ drop_last (d ∷ cs)

-- `str(Path(text).parent)`
unfoldable pub parent : Text → Text
unfolding path_of path_text components_of
parent text =
    let path = path_of text in
    path_text (record { root = path.root; components = drop_last path.components })

abbrev pub texts_beq : List Text → List Text → Bool
texts_beq [] [] = true
texts_beq (a ∷ cs) (b ∷ ds) = text_beq a b && texts_beq cs ds
texts_beq _ _ = false

texts_beq_iff : (cs ds : List Text) → (texts_beq cs ds ≡ true) ↔ (cs ≡ ds)
texts_beq_iff [] [] = (λ _. refl, λ _. refl)
texts_beq_iff (a ∷ cs) (b ∷ ds) = ground (arith, text_beq_iff a b, texts_beq_iff cs ds)
texts_beq_iff [] (b ∷ ds) = ground arith
texts_beq_iff (a ∷ cs) [] = ground arith

abbrev pub path_beq : FilePath → FilePath → Bool
path_beq p q = text_beq p.root q.root && texts_beq p.components q.components

pub path_beq_iff : (p q : FilePath) → (path_beq p q ≡ true) ↔ (p ≡ q)
path_beq_iff p q =
    ground (arith, text_beq_iff p.root q.root, texts_beq_iff p.components q.components)

instance abbrev pub path_eq : Eq FilePath
path_eq = record { beq = path_beq; beq_iff = path_beq_iff }

parents :
    (parent (codes "/var/lib/agentvm/logs/audit.log") ≡ codes "/var/lib/agentvm/logs")
    × (parent (codes "audit.log") ≡ codes ".")
    × (parent (codes "/") ≡ codes "/")
    × (parent (codes "a//b/./c/") ≡ codes "a/b")
unfolding parent filter cut join starts_with
parents = (refl, refl, refl, refl)
