-- ===== src/Validators/Prices/Contradictions.antt =====
-- Which stated prices `check_prices` reports.
use insyta_api.Prelude.{
  ℕ, ◌+◌, ◌≤◌, ◌<◌, ◌≡◌, refl, ap, ◌∙◌, ◌⊎◌, inl, inr, ◌↔◌, Bool, true, false, not, any, some, List,
  [], ◌∷◌, Text, In, Bool-cases, arith, Unicode,
}
use insyta_api.Prelude.Int.{ℤ, pos_part, neg_part}
use insyta_api.Rubric.Scoring.{truthy}
use insyta_api.Validators.Amounts.{Floats, Json, near}
use insyta_api.Validators.Quotes.{derivables}
use insyta_api.Validators.Prices.{
  stated_prices, flatten_prices, derivable, PriceCheck, keep_nums, max_nat, is_explained,
  check_against, check_prices,
}
use insyta_api.Validators.Prices.Sums.{any_iff, SumOf, MultipleOf, derivable_iff}

keep_nums-In :
    (p : ℕ → Bool) (n : ℕ) (ns : List ℕ) → In n (keep_nums p ns) ↔ (In n ns × (p n ≡ true))
keep_nums-In p n [] = (λ i. absurd i, λ (i, e). absurd i)
keep_nums-In p n (m ∷ ns) =
    let (to, from) = keep_nums-In p n ns in
    elim (Bool-cases (p m)) [
      | inl e ↦ rw e (
        λ i. elim i [ inl q ↦ (inl q, ap p q ∙ e) | inr j ↦ let (k, f) = to j in (inr k, f) ],
        λ (i, f). elim i [ inl q ↦ inl q | inr j ↦ inr (from (j, f)) ],
      )
      | inr e ↦ rw e (
        λ i. let (k, f) = to i in (inr k, f),
        λ (i, f). elim i [
          | inl q ↦ let g : p n ≡ false = ap p q ∙ e in absurd (ground arith)
          | inr j ↦ from (j, f)
        ],
      )
    ]

-- The price is within a tolerance of an allowed one.
abbrev pub Within : ℕ → ℕ → List ℤ → Type 0
Within t p allowed =
    (a : ℤ) × In a allowed × ((p + neg_part a ≤ pos_part a + t) × (pos_part a ≤ p + neg_part a + t))

near_iff : (t p : ℕ) (allowed : List ℤ) → (any (near t p) allowed ≡ true) ↔ Within t p allowed
unfolding near
near_iff t p allowed =
    let (to, from) = any_iff (near t p) allowed in
    (
      λ h. let (a, i, e) = to h in (a, i, (ground arith, ground arith)),
      λ (a, i, (l, g)). from (a, i, ground arith),
    )

-- The price is 2 to 100 times one of these, or the sum of at most ten of them.
abbrev pub Follows : ℕ → List ℕ → Type 0
Follows p cited =
    (truthy cited ≡ true) × (((q : ℕ) × In q cited × ((0 < q) × MultipleOf p q)) ⊎ SumOf 10 cited p)

-- What is reported of the stated prices.
abbrev pub Reports : ℕ → List ℤ → List ℤ → List ℕ → List ℕ → Type 0
Reports t allowed quoted stated reported =
    (cited : List ℕ) × ((q : ℕ) → In q cited ↔ (In q stated × Within t q allowed))
    × ((p : ℕ)
        → In p reported ↔ (
            In p stated
            × (¬ (Within t p allowed))
            × (¬ (Within (max_nat t 1) p quoted))
            × (¬ (Follows p cited))))

explained_iff :
    (t : ℕ) (allowed quoted : List ℤ) (cited : List ℕ) (p : ℕ)
    → (not (is_explained t allowed quoted cited p) ≡ true)
      ↔ ((¬ (Within t p allowed)) × (¬ (Within (max_nat t 1) p quoted)) × (¬ (Follows p cited)))
explained_iff t allowed quoted cited p =
    let (to_a, from_a) = near_iff t p allowed in
    let (to_q, from_q) = near_iff (max_nat t 1) p quoted in
    let (to_d, from_d) = derivable_iff p cited in
    (
      λ h. (
        λ w. let e = from_a w in absurd (ground arith),
        λ w. let e = from_q w in absurd (ground arith),
        λ f. let e = from_d f in absurd (ground arith),
      ),
      λ (a, q, d). elim (Bool-cases (any (near t p) allowed)) [
        | inl e ↦ absurd (a (to_a e))
        | inr e ↦ elim (Bool-cases (any (near (max_nat t 1) p) quoted)) [
          | inl f ↦ absurd (q (to_q f))
          | inr f ↦ elim (Bool-cases (derivable p cited)) [
            | inl g ↦ absurd (d (to_d g))
            | inr g ↦ rw (e, f, g) refl
          ]
        ]
      ],
    )

check_against-Reports :
    (t : ℕ) (allowed quoted : List ℤ) (stated : List ℕ)
    → Reports t allowed quoted stated (check_against t allowed quoted stated).contradicciones
unfolding check_against
check_against-Reports t allowed quoted stated =
    let cited = keep_nums (λ q. any (near t q) allowed) stated in
    (
      cited,
      λ q.
          let (to, from) = keep_nums-In (λ q. any (near t q) allowed) q stated in
          let (out, back) = near_iff t q allowed in
          (λ i. let (j, e) = to i in (j, out e), λ (j, w). from (j, back w)),
      λ p.
          let (to, from) =
            keep_nums-In (λ p. not (is_explained t allowed quoted cited p)) p stated in
          let (out, back) = explained_iff t allowed quoted cited p in
          (
            λ i. let (j, e) = to i in let (a, q, d) = out e in (j, a, q, d),
            λ (j, a, q, d). from (j, back (a, q, d)),
          ),
    )

none_iff : (xs : List ℕ) → (not (truthy xs) ≡ true) ↔ (xs ≡ [])
none_iff [] = ground arith
none_iff (x ∷ xs) = ground arith

-- Against a source that has prices, the check reports exactly the stated prices that are not within
-- the tolerance of one of the source, nor within it, at least 1, of an amount quoted by the tariff,
-- nor 2 to 100 times a stated price of the source, nor the sum of at most ten of these; and it is
-- fine exactly if it reports none.
pub check_prices-Reports :
    (u : Unicode) (same : ℕ → ℕ → Bool) (other_digit : ℕ → Bool) {F : Type 0} (o : Floats F) (t : ℕ)
    (text : Text) (precios : Json F) (allowed : List ℤ)
    → flatten_prices u same other_digit o precios ≡ some allowed
    → truthy allowed ≡ true
    → (r : PriceCheck) × (check_prices u same other_digit o t text precios ≡ some r)
      × Reports t allowed
          (derivables o u same text precios).derivables
          (stated_prices u same other_digit text)
          r.contradicciones
      × ((r.ok ≡ true) ↔ (r.contradicciones ≡ []))
unfolding check_prices
check_prices-Reports u same other_digit o t text precios allowed e h =
    let quoted = (derivables o u same text precios).derivables in
    let stated = stated_prices u same other_digit text in
    let r = check_against t allowed quoted stated in
    (r, ground (arith), check_against-Reports t allowed quoted stated, none_iff r.contradicciones)
