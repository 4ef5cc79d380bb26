-- ===== src/Regex.antt =====
-- The part of Python's `re` that the program uses, on texts as lists of code points: the matches
-- at a place in the order in which the backtracking engine tries them. A capturing group is a part
-- of a sequence of expressions; the expressions of the program match no empty text.
pub mod Relation
pub mod Search
pub mod Scan
pub mod Build
use insyta_api.Prelude.{
  ℕ, zero, suc, ◌-◌, Bool, true, false, Option, none, some, List, [], ◌∷◌, ◌++◌, if◌then◌else◌,
  Text, length, map, not, ◌&&◌, ◌||◌, ◌==◌, leb, any, Unicode, is_some,
}

-- An expression: a character of a class, the empty text, one after the other, one or else the
-- other, greedy and lazy repetition, and a test of the characters before and after a place.
pub data Re : Type 0 where
  one : (ℕ → Bool) → Re
  empty : Re
  seq alt : Re → Re → Re
  many lazy : Re → Re
  edge : (Option ℕ → Option ℕ → Bool) → Re

-- The character before a place, after a text.
abbrev pub last_of : Option ℕ → Text → Option ℕ
last_of prev [] = prev
last_of prev (c ∷ s) = last_of (some c) s

abbrev pub next_of : Text → Option ℕ
next_of [] = none
next_of (c ∷ s) = some c

abbrev pub flat : {A B : Type 0} → (A → List B) → List A → List B
flat f [] = []
flat f (x ∷ xs) = f x ++ flat f xs

-- A match: the text that it takes, and the rest.
abbrev pub Ends : Type 0
Ends = List (Text × Text)

abbrev pub prefixed : Text → Ends → Ends
prefixed a es = map (λ (e : Text × Text). (a ++ e.0, e.1)) es

-- One more round of a repetition: a round that takes nothing ends it.
abbrev pub rounds : (Option ℕ → Text → Ends) → Option ℕ → Text × Text → Ends
rounds again prev ([], t) = []
rounds again prev (c ∷ a, t) = prefixed (c ∷ a) (again (last_of prev (c ∷ a)) t)

-- The rounds of a greedy and of a lazy repetition, at most as many as there are characters.
abbrev pub greedy_ends : ℕ → (Option ℕ → Text → Ends) → Option ℕ → Text → Ends
greedy_ends zero body prev s = ([], s) ∷ []
greedy_ends (suc n) body prev s =
    flat (rounds (greedy_ends n body) prev) (body prev s) ++ (([], s) ∷ [])

abbrev pub lazy_ends : ℕ → (Option ℕ → Text → Ends) → Option ℕ → Text → Ends
lazy_ends zero body prev s = ([], s) ∷ []
lazy_ends (suc n) body prev s = ([], s) ∷ flat (rounds (lazy_ends n body) prev) (body prev s)

-- The matches at a place with a character before it, the preferred one first.
unfoldable pub ends : Re → Option ℕ → Text → Ends
ends (one p) prev [] = []
ends (one p) prev (c ∷ s) = if p c then (c ∷ [], s) ∷ [] else []
ends empty prev s = ([], s) ∷ []
ends (seq r q) prev s =
    flat (λ (e : Text × Text). prefixed e.0 (ends q (last_of prev e.0) e.1)) (ends r prev s)
ends (alt r q) prev s = ends r prev s ++ ends q prev s
ends (many r) prev s = greedy_ends (length s) (ends r) prev s
ends (lazy r) prev s = lazy_ends (length s) (ends r) prev s
ends (edge q) prev s = if q prev (next_of s) then ([], s) ∷ [] else []

-- `re.search(…) is not None`, from a place on.
unfoldable pub found_from : Re → Option ℕ → Text → Bool
unfolding ends
found_from r prev [] = elim (ends r prev []) [ [] ↦ false | _ ∷ _ ↦ true ]
found_from r prev (c ∷ s) =
    let later = found_from r (some c) s in elim (ends r prev (c ∷ s)) [ [] ↦ later | _ ∷ _ ↦ true ]

unfoldable pub search_re : Re → Text → Bool
unfolding found_from
search_re r s = found_from r none s

-- The matches of expressions one after the other, with the text that each takes.
unfoldable pub parts : List Re → Option ℕ → Text → List (List Text × Text)
unfolding ends
parts [] prev s = ([], s) ∷ []
parts (r ∷ rs) prev s =
    flat
      (λ (e : Text × Text).
        map (λ (p : List Text × Text). (e.0 ∷ p.0, p.1)) (parts rs (last_of prev e.0) e.1))
      (ends r prev s)

-- `re.match(…)` with its groups.
unfoldable pub match_parts : List Re → Text → Option (List Text × Text)
unfolding parts
match_parts rs s = elim (parts rs none s) [ [] ↦ none | m ∷ ms ↦ some m ]

-- A text cut up by the matches of `finditer`.
pub data Piece : Type 0 where
  plain : ℕ → Piece
  found : List Text → Piece

abbrev pub joined : List Text → Text
joined [] = []
joined (t ∷ ts) = t ++ joined ts

-- The scan of `finditer` and `sub`, with fuel for its rounds: each takes a character or a match.
unfoldable pub pieces_from : ℕ → List Re → Option ℕ → Text → List Piece
unfolding parts
pieces_from zero rs prev s = []
pieces_from (suc n) rs prev [] = []
pieces_from (suc n) rs prev (c ∷ s) =
    let skip = plain c ∷ pieces_from n rs (some c) s in
    elim (parts rs prev (c ∷ s)) [
      | [] ↦ skip
      | (m, t) ∷ ms ↦ elim (joined m) [
        | [] ↦ skip
        | d ∷ a ↦ found m ∷ pieces_from n rs (last_of (some d) a) t
      ]
    ]

unfoldable pub pieces : List Re → Text → List Piece
unfolding pieces_from
pieces rs s = pieces_from (length s) rs none s

abbrev pub founds : List Piece → List (List Text)
founds [] = []
founds (plain c ∷ ps) = founds ps
founds (found m ∷ ps) = m ∷ founds ps

-- `finditer`, by the parts of each match.
unfoldable pub find_iter : List Re → Text → List (List Text)
unfolding pieces
find_iter rs s = founds (pieces rs s)

abbrev pub replaced : (List Text → Text) → List Piece → Text
replaced f [] = []
replaced f (plain c ∷ ps) = c ∷ replaced f ps
replaced f (found m ∷ ps) = f m ++ replaced f ps

-- `sub`
unfoldable pub sub_re : List Re → (List Text → Text) → Text → Text
unfolding pieces
sub_re rs f s = replaced f (pieces rs s)

-- Bounded repetition, options, alternatives.
abbrev pub opt : Re → Re
opt r = alt r empty

abbrev pub up_to : ℕ → Re → Re
up_to zero r = empty
up_to (suc n) r = opt (seq r (up_to n r))

abbrev pub exactly : ℕ → Re → Re
exactly zero r = empty
exactly (suc n) r = seq r (exactly n r)

abbrev pub some_of : Re → Re
some_of r = seq r (many r)

abbrev pub seqs : List Re → Re
seqs [] = empty
seqs (r ∷ []) = r
seqs (r ∷ q ∷ rs) = seq r (seqs (q ∷ rs))

abbrev pub alts : Re → List Re → Re
alts r [] = r
alts r (q ∷ rs) = alt r (alts q rs)
