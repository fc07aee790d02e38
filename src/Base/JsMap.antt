-- ===== src/Base/JsMap.antt =====
-- A JavaScript `Map`, as an association list in insertion order: `set` on a key that is there keeps
-- its place.
use Prim.Native.String.{String}
use text.Mathlib.Text.{◌==◌ as text_eq}
use text.Mathlib.TextEquality.{eq_iff}
use forgeos_web.Base.{
  ℕ, ◌≡◌, refl, ◌↔◌, Bool, true, Option, none, some, List, [], ◌∷◌, ◌==◌, ==_iff, arith,
  if◌then◌else◌,
}

pub record Eq (K : Type 0) : Type 0 where
  pub beq : K → K → Bool
  pub beq_iff : (a b : K) → (beq a b ≡ true) ↔ (a ≡ b)

instance abbrev pub nat_eq : Eq ℕ
nat_eq = record { beq = ◌==◌; beq_iff = ==_iff }

instance abbrev pub string_eq : Eq String
string_eq = record { beq = text_eq; beq_iff = eq_iff }

abbrev pub JsMap : Type 0 → Type 0 → Type 0
JsMap K V = List (K × V)

module _ {K V : Type 0} ⦃e : Eq K⦄ where
  unfoldable pub get : JsMap K V → K → Option V
  get [] k = none
  get ((j, v) ∷ m) k = if e.beq j k then some v else get m k

  unfoldable pub put : JsMap K V → K → V → JsMap K V
  put [] k v = (k, v) ∷ []
  put ((j, u) ∷ m) k v = if e.beq j k then (j, v) ∷ m else (j, u) ∷ put m k v

  unfoldable pub remove : JsMap K V → K → JsMap K V
  remove [] k = []
  remove ((j, u) ∷ m) k = if e.beq j k then remove m k else (j, u) ∷ remove m k

  pub get-put :
      (m : JsMap K V) (k : K) (v : V) (j : K)
      → get (put m k v) j ≡ (if e.beq k j then some v else get m j)
  unfolding get put
  get-put [] k v j = refl
  get-put ((i, u) ∷ m) k v j =
      ground (arith, e.beq_iff i k, e.beq_iff i j, e.beq_iff k j, get-put m k v j)

  pub get-remove :
      (m : JsMap K V) (k j : K) → get (remove m k) j ≡ (if e.beq k j then none else get m j)
  unfolding get remove
  get-remove [] k j = ground arith
  get-remove ((i, u) ∷ m) k j =
      ground (arith, e.beq_iff i k, e.beq_iff i j, e.beq_iff k j, get-remove m k j)
