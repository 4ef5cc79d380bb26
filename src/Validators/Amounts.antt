-- ===== src/Validators/Amounts.antt =====
-- JSON values of the sources of truth, their numbers, and sets of numbers as the validators use them.
use insyta_api.Prelude.{
  ℕ, ◌+◌, Bool, ◌&&◌, Option, none, some, List, [], ◌∷◌, ◌++◌, any, leb, ◌==◌, if◌then◌else◌, Text,
  Unicode, ◌*◌, text_eq,
}
use insyta_api.Prelude.Int.{ℤ, pos_part, neg_part}

-- What the validators use of Python's floats; amounts and their products are taken to be finite.
pub record Floats (F : Type 0) : Type 0 where
  pub of_int : ℤ → F
  pub add : F → F → F
  pub mul : F → F → F
  pub less : F → F → Bool
  pub rounded : F → ℤ

mutual
  pub data Json (F : Type 0) : Type 0 where
    null : Json F
    boolean : Bool → Json F
    integer : ℤ → Json F
    float : F → Json F
    string : Text → Json F
    array : Values F → Json F
    object : Fields F → Json F

  pub data Values (F : Type 0) : Type 0 where
    no_values : Values F
    value : Json F → Values F → Values F

  pub data Fields (F : Type 0) : Type 0 where
    no_fields : Fields F
    field : Text → Json F → Fields F → Fields F

module _ {F : Type 0} where
  -- `d.get(key)`
  unfoldable pub get : Text → Fields F → Option (Json F)
  unfolding text_eq
  get key Fields.no_fields = none
  get key (Fields.field k v fs) = if text_eq key k then some v else get key fs

  -- `d.values()`
  abbrev pub values : Fields F → List (Json F)
  values Fields.no_fields = []
  values (Fields.field k v fs) = v ∷ values fs

  -- `float(v)` for a number that is no `bool`.
  abbrev pub number_of : Floats F → Json F → Option F
  number_of o (Json.integer n) = some (o.of_int n)
  number_of o (Json.float x) = some x
  number_of o _ = none

-- `int(s)` of decimal digits, read on from a value; a character that is none counts for nothing.
unfoldable pub number_from : Unicode → ℕ → Text → ℕ
number_from u n [] = n
number_from u n (c ∷ s) = number_from u (elim (u.decimal c) [ none ↦ n | some d ↦ 10 * n + d ]) s

-- `n in s`
abbrev pub has : ℕ → List ℕ → Bool
has n s = any (λ m. m == n) s

-- `s | t`, what is new at the end.
unfoldable pub union : List ℕ → List ℕ → List ℕ
union s [] = s
union s (n ∷ ns) = if has n s then union s ns else union (s ++ (n ∷ [])) ns

-- `abs(p - a) <= tolerance`
unfoldable pub near : ℕ → ℕ → ℤ → Bool
near tolerance p a =
    leb (p + neg_part a) (pos_part a + tolerance) && leb (pos_part a) (p + neg_part a + tolerance)
