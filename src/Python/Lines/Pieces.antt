-- ===== src/Python/Lines/Pieces.antt =====
-- What `text.split(separator)` makes of texts that are joined by the separator.
use agent_vm.Base.{
  ℕ, false, List, [], ◌∷◌, ◌++◌, any, any-append, nat_beq, nat_beq_iff, All, ◌≡◌, refl, ◌∙◌, ap,
  arith,
}
use agent_vm.Python.Lines.{cut, attach}
use agent_vm.Python.Text.{Text, join}

module _ (separator : ℕ) where
  -- The separator does not stand in the text.
  abbrev pub IsPiece : Text → Type 0
  IsPiece piece = any (nat_beq separator) piece ≡ false

  cut_last : (p : Text) → IsPiece p → cut (nat_beq separator) p ≡ p ∷ []
  unfolding cut attach any
  cut_last [] _ = refl
  cut_last (c ∷ p) h = ground (arith, cut_last p)

  cut-append :
      (p rest : Text)
      → IsPiece p
      → cut (nat_beq separator) (p ++ separator ∷ rest) ≡ p ∷ cut (nat_beq separator) rest
  unfolding cut attach any
  cut-append [] rest _ = ground (arith, nat_beq_iff separator separator)
  cut-append (c ∷ p) rest h = ground (arith, cut-append p rest)

  -- Texts without the separator, joined by it, are the pieces of what that makes.
  pub cut-join :
      (p : Text) (ps : List Text)
      → All IsPiece (p ∷ ps)
      → cut (nat_beq separator) (join (separator ∷ []) (p ∷ ps)) ≡ p ∷ ps
  unfolding join
  cut-join p [] (hp, _) = cut_last p hp
  cut-join p (q ∷ ps) (hp, h) =
      cut-append p (join (separator ∷ []) (q ∷ ps)) hp ∙ ap (◌∷◌ p) (cut-join q ps h)

  pub join-IsPiece :
      (between : Text) (ps : List Text)
      → IsPiece between
      → All IsPiece ps
      → IsPiece (join between ps)
  unfolding join any
  join-IsPiece between [] _ _ = refl
  join-IsPiece between (p ∷ []) _ (hp, _) = hp
  join-IsPiece between (p ∷ q ∷ ps) hb (hp, h) =
      rw
        (
          any-append (nat_beq separator) p (between ++ join between (q ∷ ps)),
          hp,
          any-append (nat_beq separator) between (join between (q ∷ ps)),
          hb,
        )
        (join-IsPiece between (q ∷ ps) hb h)
