-- ===== src/Prisma.antt =====
-- What the services use of the database client: one table of rows with a primary key. The client
-- is not part of the repository, so a table is a parameter with its documented behaviour as laws.
pub mod Memory
pub mod Listing
use mathlib.Core.List.{Memᴰ}
use forgeos_web.Base.{
  ℕ, ◌≡◌, Bool, true, false, Option, none, some, List, All, DistinctBy, ◌==◌, if◌then◌else◌,
}

pub record Table (A : Type 0) (key : A → ℕ) : Type 1 where
  pub Rows : Type 0
  -- `findUnique` by primary key
  pub find_unique : Rows → ℕ → Option A
  -- `findFirst` with no order: any row that passes
  pub find_first : Rows → (A → Bool) → Option A
  pub find_many : Rows → (A → Bool) → List A
  -- the write of `update` or `create`: the row with this key is the one given
  pub put : Rows → A → Rows
  -- the key that `create` assigns
  pub fresh : Rows → ℕ
  pub find_unique_key : (t : Rows) (i : ℕ) (a : A) → find_unique t i ≡ some a → key a ≡ i
  pub find_unique-put :
      (t : Rows) (a : A) (i : ℕ)
      → find_unique (put t a) i ≡ (if key a == i then some a else find_unique t i)
  pub fresh_free : (t : Rows) → find_unique t (fresh t) ≡ none
  pub find_first_sound :
      (t : Rows) (p : A → Bool) (a : A)
      → find_first t p ≡ some a
      → (find_unique t (key a) ≡ some a) × (p a ≡ true)
  pub find_first_none :
      (t : Rows) (p : A → Bool) (i : ℕ) (a : A)
      → find_first t p ≡ none
      → find_unique t i ≡ some a
      → p a ≡ false
  pub find_many_sound :
      (t : Rows) (p : A → Bool)
      → All (λ a. (find_unique t (key a) ≡ some a) × (p a ≡ true)) (find_many t p)
  pub find_many_distinct : (t : Rows) (p : A → Bool) → DistinctBy key (find_many t p)
  pub find_many_complete :
      (t : Rows) (p : A → Bool) (i : ℕ) (a : A)
      → find_unique t i ≡ some a
      → p a ≡ true
      → Memᴰ a (find_many t p)
