-- ===== src/Audit/Counter.antt =====
-- `collections.Counter` on texts, as pairs in the order of insertion.
use insyta_api.Prelude.{ℕ, leb, List, [], ◌∷◌, Text, if◌then◌else◌}
use insyta_api.Report.{count_type}

-- `c[t] += 1`
abbrev pub Counter : Type 0
Counter = List (Text × ℕ)

unfoldable pub count : Text → Counter → Counter
unfolding count_type
count t c = count_type t c

unfoldable pub insert_count : Text × ℕ → Counter → Counter
insert_count (t, n) [] = (t, n) ∷ []
insert_count (t, n) ((s, m) ∷ c) =
    let later = insert_count (t, n) c in if leb m n then (t, n) ∷ (s, m) ∷ c else (s, m) ∷ later

-- `most_common()`: the highest first, equal counts in the order of insertion.
unfoldable pub most_common : Counter → Counter
unfolding insert_count
most_common [] = []
most_common (p ∷ c) = insert_count p (most_common c)
