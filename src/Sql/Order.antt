-- ===== src/Sql/Order.antt =====
-- ORDER BY on a text column: SQLite compares texts by their code points, and its sorter keeps the
-- order of equal keys.
use agent_vm.Base.{
  Bool, true, false, List, [], ◌∷◌, ◌≡◌, refl, ltb, nat_beq, if◌then◌else◌, arith, All, inl, inr,
  Bool-cases,
}
use agent_vm.Python.Text.{Text}
use mathlib.Core.List.{Perm}
use mathlib.Core.List.Perm

-- `a <= b` for TEXT values
unfoldable pub text_leb : Text → Text → Bool
text_leb [] b = true
text_leb (x ∷ a) [] = false
text_leb (x ∷ a) (y ∷ b) = if ltb x y then true else if nat_beq x y then text_leb a b else false

pub text_leb_refl : (a : Text) → text_leb a a ≡ true
unfolding text_leb
text_leb_refl [] = refl
text_leb_refl (x ∷ a) = ground (arith, text_leb_refl a)

pub text_leb_trans :
    (a b c : Text) → text_leb a b ≡ true → text_leb b c ≡ true → text_leb a c ≡ true
unfolding text_leb
text_leb_trans [] b c _ _ = refl
text_leb_trans (x ∷ a) [] c h _ = cc
text_leb_trans (x ∷ a) (y ∷ b) [] _ h = cc
text_leb_trans (x ∷ a) (y ∷ b) (z ∷ c) h k = ground (arith, text_leb_trans a b c)

pub text_leb_total : (a b : Text) → text_leb a b ≡ false → text_leb b a ≡ true
unfolding text_leb
text_leb_total [] b h = cc
text_leb_total (x ∷ a) [] h = refl
text_leb_total (x ∷ a) (y ∷ b) h = ground (arith, text_leb_total a b)

module _ {R : Type 0} (before : R → R → Bool) where
  -- Puts a row in front of the first row that it may not follow.
  unfoldable pub place : R → List R → List R
  place r [] = r ∷ []
  place r (q ∷ rows) = if before r q then r ∷ q ∷ rows else q ∷ place r rows

  -- Rows in the order `before`, equal ones as they were.
  unfoldable pub sort : List R → List R
  unfolding place
  sort [] = []
  sort (r ∷ rows) = place r (sort rows)

  abbrev pub IsSorted : List R → Type 0
  IsSorted [] = Unit
  IsSorted (r ∷ rows) = All (λ q. before r q ≡ true) rows × IsSorted rows

  place-perm : (r : R) (rows : List R) → Perm (place r rows) (r ∷ rows)
  unfolding place
  place-perm r [] = Perm.refl _
  place-perm r (q ∷ rows) = elim (Bool-cases (before r q)) [
    | inl h ↦ rw h (Perm.refl _)
    | inr h ↦ rw h (Perm.trans (Perm.cons q (place-perm r rows)) (Perm.swap r q rows))
  ]

  pub sort-perm : (rows : List R) → Perm (sort rows) rows
  unfolding sort
  sort-perm [] = Perm.refl []
  sort-perm (r ∷ rows) = Perm.trans (place-perm r (sort rows)) (Perm.cons r (sort-perm rows))

  All-of-place : (P : R → Type 0) (r : R) (rows : List R) → All P (place r rows) → P r × All P rows
  unfolding place
  All-of-place P r [] h = h
  All-of-place P r (q ∷ rows) h = elim (Bool-cases (before r q)) [
    | inl first ↦ let k : All P (r ∷ q ∷ rows) = rw first at h in k
    | inr later ↦
        let k : P q × All P (place r rows) = rw later at h in
        let (hr, hrows) = All-of-place P r rows k.1 in (hr, (k.0, hrows))
  ]

  -- What holds of all sorted rows holds of all rows.
  pub All-of-sort : (P : R → Type 0) (rows : List R) → All P (sort rows) → All P rows
  unfolding sort
  All-of-sort P [] h = tt
  All-of-sort P (r ∷ rows) h =
      let (hr, hrows) = All-of-place P r (sort rows) h in (hr, All-of-sort P rows hrows)

  All-place_both :
      (P : R → Type 0) (r : R) (rows : List R) → P r → All P rows → All P (place r rows)
  unfolding place
  All-place_both P r [] hr _ = (hr, tt)
  All-place_both P r (q ∷ rows) hr (hq, h) = elim (Bool-cases (before r q)) [
    | inl first ↦ rw first (hr, (hq, h))
    | inr later ↦ rw later (hq, All-place_both P r rows hr h)
  ]

  -- What holds of all rows holds of all sorted rows.
  pub All-sort : (P : R → Type 0) (rows : List R) → All P rows → All P (sort rows)
  unfolding sort
  All-sort P [] _ = tt
  All-sort P (r ∷ rows) (hr, h) = All-place_both P r (sort rows) hr (All-sort P rows h)

  module _ (total : (a b : R) → before a b ≡ false → before b a ≡ true)
      (trans : (a b c : R) → before a b ≡ true → before b c ≡ true → before a c ≡ true) where
    All-before :
        (r q : R) (rows : List R)
        → before r q ≡ true
        → All (λ p. before q p ≡ true) rows
        → All (λ p. before r p ≡ true) rows
    All-before r q [] h _ = tt
    All-before r q (p ∷ rows) h (hp, k) = (trans r q p h hp, All-before r q rows h k)

    All-place :
        (q r : R) (rows : List R)
        → before q r ≡ true
        → All (λ p. before q p ≡ true) rows
        → All (λ p. before q p ≡ true) (place r rows)
    unfolding place
    All-place q r [] h _ = (h, tt)
    All-place q r (p ∷ rows) h (hp, k) = elim (Bool-cases (before r p)) [
      | inl first ↦ rw first (h, (hp, k))
      | inr later ↦ rw later (hp, All-place q r rows h k)
    ]

    place-IsSorted : (r : R) (rows : List R) → IsSorted rows → IsSorted (place r rows)
    unfolding place
    place-IsSorted r [] _ = (tt, tt)
    place-IsSorted r (q ∷ rows) (hq, h) = elim (Bool-cases (before r q)) [
      | inl first ↦ rw first ((first, All-before r q rows first hq), (hq, h))
      | inr later ↦ rw later (All-place q r rows (total r q later) hq, place-IsSorted r rows h)
    ]

    pub sort-IsSorted : (rows : List R) → IsSorted (sort rows)
    unfolding sort
    sort-IsSorted [] = tt
    sort-IsSorted (r ∷ rows) = place-IsSorted r (sort rows) (sort-IsSorted rows)
