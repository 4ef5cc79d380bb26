-- ===== src/Audit/Suggestions/Chosen.antt =====
-- The patterns that are handed to the generator of suggestions.
use insyta_api.Prelude.{
  ℕ, suc, ◌+◌, ◌≤◌, ltb, leb, not, ◌||◌, ◌≡◌, refl, ◌⊎◌, inl, inr, true, false, [], ◌∷◌, All, In,
  Text, txt, text_eq, length, Bool-cases, arith,
}
use insyta_api.Rubric.Scoring.{truthy}
use insyta_api.Audit.Counter.{Counter, insert_count, most_common}
use insyta_api.Audit.Suggestions.{Stat, stats_of, flowless_stats}

insert_count-In : (p x : Text × ℕ) (c : Counter) → In x (insert_count p c) → (x ≡ p) ⊎ In x c
unfolding insert_count
insert_count-In p x [] i = i
insert_count-In p x (q ∷ c) i = elim (Bool-cases (leb q.1 p.1)) [
  | inl e ↦ rw e at i
  | inr e ↦ elim (rw e at i) [
    | inl f ↦ inr (inl f)
    | inr j ↦ elim (insert_count-In p x c j) [ inl f ↦ inl f | inr k ↦ inr (inr k) ]
  ]
]

most_common-In : (x : Text × ℕ) (c : Counter) → In x (most_common c) → In x c
unfolding most_common
most_common-In x [] i = i
most_common-In x (p ∷ c) i = elim (insert_count-In p x (most_common c) i) [
  | inl e ↦ inl e
  | inr j ↦ inr (most_common-In x c j)
]

-- The pattern is counted, at least so often, and is neither empty nor the catch-all.
abbrev pub IsActionable : ℕ → Counter → Stat → Type 0
IsActionable min_messages c s =
    In (s.issue_type, s.count) c
    × (min_messages ≤ s.count)
    × (truthy s.issue_type ≡ true)
    × (text_eq s.issue_type (txt "otro") ≡ false)

stats_of-IsActionable :
    (all_of : Counter) (limit m len : ℕ) (c : Counter)
    → ((x : Text × ℕ) → In x c → In x all_of)
    → All (IsActionable m all_of) (stats_of limit m len c)
unfolding stats_of
stats_of-IsActionable all_of limit m len [] f = tt
stats_of-IsActionable all_of limit m len ((issue, n) ∷ c) f =
    let rest = stats_of-IsActionable all_of limit m (suc len) c (λ x i. f x (inr i)) in
    elim (Bool-cases (not (truthy issue) || (text_eq issue (txt "otro") || ltb n m))) [
      | inl e ↦ rw e (stats_of-IsActionable all_of limit m len c (λ x i. f x (inr i)))
      | inr e ↦
          let good : (m ≤ n) × (truthy issue ≡ true) × (text_eq issue (txt "otro") ≡ false) =
            (ground arith, ground arith, ground arith) in
          let here : In (issue, n) all_of
              × (m ≤ n)
              × (truthy issue ≡ true)
              × (text_eq issue (txt "otro") ≡ false) =
            (f (issue, n) (inl refl), good.0, good.1, good.2) in
          elim (Bool-cases (leb limit (suc len))) [
            | inl g ↦ rw (e, g) (here, tt)
            | inr g ↦ rw (e, g) (here, rest)
          ]
    ]

stats_of-length :
    (limit m len : ℕ) (c : Counter)
    → suc len ≤ limit
    → len + length (stats_of limit m len c) ≤ limit
unfolding stats_of
stats_of-length limit m len [] l = omega arith
stats_of-length limit m len ((issue, n) ∷ c) l =
    elim (Bool-cases (not (truthy issue) || (text_eq issue (txt "otro") || ltb n m))) [
      | inl e ↦ rw e (stats_of-length limit m len c l)
      | inr e ↦ elim (Bool-cases (leb limit (suc len))) [
        | inl g ↦ rw (e, g) (omega arith)
        | inr g ↦
            let le : suc (suc len) ≤ limit = ground arith in
            rw (e, g) (omega (arith, stats_of-length limit m (suc len) c le))
      ]
    ]

-- The patterns handed to the generator are counted issues with their counts, each counted often
-- enough, none empty or the catch-all "otro", and they are no more than a limit that is not 0.
pub flowless_stats-IsActionable :
    (c : Counter) (min_messages limit : ℕ)
    → 1 ≤ limit
    → All (IsActionable min_messages c) (flowless_stats c min_messages limit)
      × (length (flowless_stats c min_messages limit) ≤ limit)
unfolding flowless_stats
flowless_stats-IsActionable c m limit l = (
  stats_of-IsActionable c limit m 0 (most_common c) (λ x i. most_common-In x c i),
  omega (arith, stats_of-length limit m 0 (most_common c) l),
)
