-- ===== src/Prisma/Listing.antt =====
-- Whether a list of rows has one with a given key, and what the lists of a table's query have.
use mathlib.Core.List.{Memᴰ}
use forgeos_web.Base.{
  ℕ, ◌≡◌, ◌≢◌, refl, sym, ap, ◌∙◌, Bool, true, false, ◌||◌, some, List, [], ◌∷◌, ◌==◌, ==_iff, All,
  arith, inl, inr, Bool-cases,
}
use forgeos_web.Prisma.{Table}

module _ {A : Type 0} (key : A → ℕ) where
  abbrev pub listed : ℕ → List A → Bool
  listed j [] = false
  listed j (x ∷ xs) = key x == j || listed j xs

  pub not-listed :
      (i j : ℕ) (xs : List A) → All (λ (y : A). i ≢ key y) xs → i ≡ j → listed j xs ≡ false
  not-listed i j [] h e = refl
  not-listed i j (x ∷ xs) h e = ground (arith, not-listed i j xs h.1 e, ==_iff (key x) j, h.0)

  pub listed_of_mem : (a : A) (j : ℕ) (xs : List A) → Memᴰ a xs → key a ≡ j → listed j xs ≡ true
  listed_of_mem a j [] m e = elim m [ ]
  listed_of_mem a j (x ∷ xs) (Memᴰ.head same) e = ground (arith, ap key same, ==_iff (key x) j)
  listed_of_mem a j (x ∷ xs) (Memᴰ.tail m) e = ground (arith, listed_of_mem a j xs m e)

  listed-All :
      (T : Table A key) (t : T.Rows) (p : A → Bool) (j : ℕ) (xs : List A)
      → All (λ a. (T.find_unique t (key a) ≡ some a) × (p a ≡ true)) xs
      → listed j xs ≡ true
      → (a : A) × (T.find_unique t j ≡ some a) × (p a ≡ true)
  listed-All T t p j [] h e = absurd (cc e)
  listed-All T t p j (x ∷ xs) h e = elim (Bool-cases (key x == j)) [
    | inl here ↦ (x, rw (← (==_iff (key x) j).0 here) h.0.0, h.0.1)
    | inr later ↦ listed-All T t p j xs h.1 (rw later at e)
  ]

  -- A row that is there is listed by a query exactly when it passes the query's test.
  pub listed-find_many :
      (T : Table A key) (t : T.Rows) (p : A → Bool) (j : ℕ) (a : A)
      → T.find_unique t j ≡ some a
      → listed j (T.find_many t p) ≡ p a
  listed-find_many T t p j a there = elim (Bool-cases (p a)) [
    | inl passes ↦
        listed_of_mem a j (T.find_many t p) (T.find_many_complete t p j a there passes)
          (T.find_unique_key t j a there)
        ∙ sym passes
    | inr fails ↦ elim (Bool-cases (listed j (T.find_many t p))) [
      | inl in_list ↦
          let (b, at_j, passes) = listed-All T t p j _ (T.find_many_sound t p) in_list in
          let same : b ≡ a = cc in absurd (cc (ap p same))
      | inr out ↦ out ∙ sym fails
    ]
  ]
