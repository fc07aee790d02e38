-- ===== src/Prisma/Memory.antt =====
-- A table as a list of rows, newest write first: the laws of a table can be met, and tests run.
use Prim.Native.Nat.{max}
use native.Mathlib.Nat.{le_refl}
use mathlib.Core.List.{Memᴰ}
use forgeos_web.Base.{
  ℕ, suc, ◌≤◌, ◌≡◌, refl, sym, ◌∙◌, Bool, true, false, not, ◌&&◌, Option, none, some, List, [], ◌∷◌,
  All, DistinctBy, ◌≢◌, ◌==◌, if◌then◌else◌, arith, Bool-cases, inl, inr, ap,
}
use forgeos_web.Prisma.{Table}

module _ {A : Type 0} (key : A → ℕ) where
  abbrev find_row : List A → ℕ → Option A
  find_row [] i = none
  find_row (x ∷ xs) i = if key x == i then some x else find_row xs i

  abbrev select : List A → (A → Bool) → List A
  select [] p = []
  select (x ∷ xs) p =
      let rest = select xs (λ a. not (key x == key a) && p a) in if p x then x ∷ rest else rest

  abbrev first : List A → Option A
  first [] = none
  first (x ∷ xs) = some x

  abbrev next_key : List A → ℕ
  next_key [] = 0
  next_key (x ∷ xs) = max (suc (key x)) (next_key xs)

  pub find_row_key : (t : List A) (i : ℕ) (a : A) → find_row t i ≡ some a → key a ≡ i
  find_row_key [] i a h = ground arith
  find_row_key (x ∷ xs) i a h = ground (arith, find_row_key xs i a)

  pub find_row_above : (t : List A) (i : ℕ) → next_key t ≤ i → find_row t i ≡ none
  find_row_above [] i h = refl
  find_row_above (x ∷ xs) i h = ground (arith, find_row_above xs i)

  abbrev Passes : List A → (A → Bool) → A → Type 0
  Passes t p a = (find_row t (key a) ≡ some a) × (p a ≡ true)

  All-Passes :
      (x : A) (xs : List A) (p : A → Bool) (ys : List A)
      → All (Passes xs (λ a. not (key x == key a) && p a)) ys
      → All (Passes (x ∷ xs) p) ys
  All-Passes x xs p [] h = tt
  All-Passes x xs p (y ∷ ys) h = (ground (arith, h.0), All-Passes x xs p ys h.1)

  pub select_sound : (t : List A) (p : A → Bool) → All (Passes t p) (select t p)
  select_sound [] p = tt
  select_sound (x ∷ xs) p =
      let rest = All-Passes x xs p _ (select_sound xs (λ a. not (key x == key a) && p a)) in
      elim (Bool-cases (p x)) [ inl e ↦ rw e ((ground arith, e), rest) | inr e ↦ rw e rest ]

  All-differ :
      (x : A) (xs : List A) (p : A → Bool) (ys : List A)
      → All (Passes xs (λ a. not (key x == key a) && p a)) ys
      → All (λ y. key x ≢ key y) ys
  All-differ x xs p [] h = tt
  All-differ x xs p (y ∷ ys) h = (ground (arith, h.0), All-differ x xs p ys h.1)

  pub select_distinct : (t : List A) (p : A → Bool) → DistinctBy key (select t p)
  select_distinct [] p = tt
  select_distinct (x ∷ xs) p =
      let q : A → Bool = λ a. not (key x == key a) && p a in
      elim (Bool-cases (p x)) [
        | inl e ↦ rw e (All-differ x xs p _ (select_sound xs q), select_distinct xs q)
        | inr e ↦ rw e (select_distinct xs q)
      ]

  mem-kept :
      (b : Bool) (x a : A) (rest : List A) → Memᴰ a rest → Memᴰ a (if b then x ∷ rest else rest)
  mem-kept true x a rest m = Memᴰ.tail m
  mem-kept false x a rest m = m

  pub select_complete :
      (t : List A) (p : A → Bool) (i : ℕ) (a : A)
      → find_row t i ≡ some a
      → p a ≡ true
      → Memᴰ a (select t p)
  select_complete [] p i a h e = ground arith
  select_complete (x ∷ xs) p i a h e = elim (Bool-cases (key x == i)) [
    | inl here ↦ let same : x ≡ a = ground arith in rw (ap p same ∙ e) (Memᴰ.head (sym same))
    | inr later ↦
        let found : find_row xs i ≡ some a = ground arith in
        mem-kept (p x) x a _ (
          select_complete xs (λ b. not (key x == key b) && p b) i a found
            (ground (arith, find_row_key xs i a)))
  ]

  pub first-Passes :
      (t ys : List A) (p : A → Bool) (a : A)
      → All (Passes t p) ys
      → first ys ≡ some a
      → Passes t p a
  first-Passes t [] p a h e = ground arith
  first-Passes t (y ∷ ys) p a h e = ground arith

  not-mem-nothing : (ys : List A) (a : A) → first ys ≡ none → Memᴰ a ys → ⊥
  not-mem-nothing ys a e (Memᴰ.head q) = cc
  not-mem-nothing ys a e (Memᴰ.tail m) = cc

  pub first-none :
      (t : List A) (p : A → Bool) (i : ℕ) (a : A)
      → first (select t p) ≡ none
      → find_row t i ≡ some a
      → p a ≡ false
  first-none t p i a h e = elim (Bool-cases (p a)) [
    | inl passes ↦ absurd (not-mem-nothing _ a h (select_complete t p i a e passes))
    | inr fails ↦ fails
  ]

-- The rows as a list: a write goes in front, and a row behind one with its key is not seen.
abbrev pub memory : (A : Type 0) (key : A → ℕ) → Table A key
memory A key = record {
  Rows = List A;
  find_unique = find_row key;
  find_first = λ t p. first key (select key t p);
  find_many = select key;
  put = λ t a. a ∷ t;
  fresh = next_key key;
  find_unique_key = find_row_key key;
  find_unique-put = λ t a i. refl;
  fresh_free = λ t. find_row_above key t (next_key key t) (le_refl _);
  find_first_sound = λ t p a. first-Passes key t (select key t p) p a (select_sound key t p);
  find_first_none = first-none key;
  find_many_sound = select_sound key;
  find_many_distinct = select_distinct key;
  find_many_complete = select_complete key;
}
