-- ===== src/Validators/Prices/Sums.antt =====
-- The bounded search of `_derivable` finds exactly the multiples and the sums of the cited prices.
use insyta_api.Prelude.{
  ℕ, zero, suc, ◌+◌, ◌*◌, ◌/◌, ◌%◌, ◌≤◌, ◌<◌, ◌≡◌, refl, sym, ap, subst, ◌∙◌, ◌⊎◌, inl, inr, ◌↔◌,
  Bool, true, ◌==◌, leb, any, all, List, [], ◌∷◌, ◌++◌, In, In-append, In-append_left,
  In-append_right, Bool-cases, ==_iff, leb→le, arith, if◌then◌else◌,
}
use native.Mathlib.Nat.{mul-div_cancel, mul-mod_left}
use insyta_api.Regex.{flat}
use insyta_api.Regex.Relation.{In-flat, flat-In, tested, tested-In}
use insyta_api.Rubric.Scoring.{truthy}
use insyta_api.Validators.Amounts.{has, union}
use insyta_api.Validators.Prices.{new_sums, reached, is_multiple, derivable}

-- The sum of at most so many numbers of the list.
abbrev pub SumOf : ℕ → List ℕ → ℕ → Type 0
SumOf zero ps m = m ≡ 0
SumOf (suc k) ps m = (m ≡ 0) ⊎ ((p : ℕ) × (a : ℕ) × In p ps × (m ≡ a + p) × SumOf k ps a)

pub any_iff :
    {A : Type 0} (t : A → Bool) (xs : List A)
    → (any t xs ≡ true) ↔ ((x : A) × In x xs × (t x ≡ true))
any_iff t [] = (λ h. absurd (ground arith), λ (x, i, h). absurd i)
any_iff t (x ∷ xs) =
    let (to, from) = any_iff t xs in
    (
      λ h. elim (Bool-cases (t x)) [
        | inl e ↦ (x, inl refl, e)
        | inr e ↦ let (y, i, k) = to (ground arith) in (y, inr i, k)
      ],
      λ (y, i, k). elim i [
        | inl e ↦ let q : t x ≡ true = ap t (sym e) ∙ k in ground arith
        | inr j ↦ let q = from (y, j, k) in ground arith
      ],
    )

pub all_iff :
    {A : Type 0} (t : A → Bool) (xs : List A) → (all t xs ≡ true) ↔ ((x : A) → In x xs → t x ≡ true)
all_iff t [] = (λ h x i. absurd i, λ h. refl)
all_iff t (x ∷ xs) =
    let (to, from) = all_iff t xs in
    (
      λ h y i. elim i [
        | inl e ↦ let q : t x ≡ true = ground arith in ap t e ∙ q
        | inr j ↦ to (ground arith) y j
      ],
      λ h. let a = h x (inl refl) in let b = from (λ y i. h y (inr i)) in ground arith,
    )

pub has_iff : (n : ℕ) (s : List ℕ) → (has n s ≡ true) ↔ In n s
has_iff n s =
    let (to, from) = any_iff (λ m. m == n) s in
    (
      λ h. let (x, i, e) = to h in subst (λ v. In v s) ((==_iff x n).0 e) i,
      λ i. from (n, i, (==_iff n n).1 refl),
    )

union-In : (n : ℕ) (s t : List ℕ) → In n (union s t) ↔ (In n s ⊎ In n t)
unfolding union
union-In n s [] = (λ i. inl i, λ i. elim i [ inl j ↦ j | inr j ↦ absurd j ])
union-In n s (m ∷ t) =
    let (to, from) = has_iff m s in
    elim (Bool-cases (has m s)) [
      | inl e ↦
          let (out, back) = union-In n s t in
          rw e (
            λ i. elim (out i) [ inl j ↦ inl j | inr j ↦ inr (inr j) ],
            λ i. elim i [
              | inl j ↦ back (inl j)
              | inr (inl q) ↦ back (inl (subst (λ v. In v s) (sym q) (to e)))
              | inr (inr j) ↦ back (inr j)
            ],
          )
      | inr e ↦
          let (out, back) = union-In n (s ++ (m ∷ [])) t in
          rw e (
            λ i. elim (out i) [
              | inl j ↦ elim (In-append n s (m ∷ []) j) [
                | inl k ↦ inl k
                | inr (inl q) ↦ inr (inl q)
                | inr (inr k) ↦ absurd k
              ]
              | inr j ↦ inr (inr j)
            ],
            λ i. elim i [
              | inl j ↦ back (inl (In-append_left n s (m ∷ []) j))
              | inr (inl q) ↦ back (inl (In-append_right n s (m ∷ []) (inl q)))
              | inr (inr j) ↦ back (inr j)
            ],
          )
    ]

SumOf-zero : (k : ℕ) (ps : List ℕ) → SumOf k ps 0
SumOf-zero zero ps = refl
SumOf-zero (suc k) ps = inl refl

SumOf-le : (j k : ℕ) (ps : List ℕ) (n : ℕ) → j ≤ k → SumOf j ps n → SumOf k ps n
SumOf-le zero k ps n l h = subst (λ v. SumOf k ps v) (sym h) (SumOf-zero k ps)
SumOf-le (suc j) zero ps n l h = absurd (omega arith)
SumOf-le (suc j) (suc k) ps n l (inl h) = inl h
SumOf-le (suc j) (suc k) ps n l (inr (p, a, i, e, h)) =
    inr (p, a, i, e, SumOf-le j k ps a (omega arith) h)

module _ (m : ℕ) (ps : List ℕ) where
  -- The sum of a reached number and a price, within the amount.
  abbrev IsNew : ℕ → List ℕ → Type 0
  IsNew n s = (a : ℕ) × (p : ℕ) × In a s × In p ps × (n ≡ a + p) × (n ≤ m)

  new_sums-IsNew : (n : ℕ) (s : List ℕ) → In n (new_sums m ps s) → IsNew n s
  new_sums-IsNew n s i =
      let (a, j, k) =
        In-flat (λ a. flat (λ p. if leb (a + p) m then (a + p) ∷ [] else []) ps) n s i in
      let (p, l, h) = In-flat (λ p. if leb (a + p) m then (a + p) ∷ [] else []) n ps k in
      let (e, b) = tested (leb (a + p) m) n (a + p) h in
      (a, p, j, l, e, omega (arith, leb→le (a + p) m b))

  IsNew-new_sums : (n : ℕ) (s : List ℕ) → IsNew n s → In n (new_sums m ps s)
  IsNew-new_sums n s (a, p, j, l, e, le) =
      let b : leb (a + p) m ≡ true = ground arith in
      let i = tested-In (leb (a + p) m) (a + p) b in
      flat-In (λ a. flat (λ p. if leb (a + p) m then (a + p) ∷ [] else []) ps) n a s j
        (flat-In (λ p. if leb (a + p) m then (a + p) ∷ [] else []) n p ps l
          (subst (λ v. In v (if leb (a + p) m then (a + p) ∷ [] else [])) (sym e) i))

  -- The list holds the sums of at most so many prices, within the amount.
  abbrev Holds : ℕ → List ℕ → Type 0
  Holds k s = (n : ℕ) → In n s ↔ (SumOf k ps n × (n ≤ m))

  Holds-suc : (k : ℕ) (s : List ℕ) → Holds k s → Holds (suc k) (union s (new_sums m ps s))
  Holds-suc k s h n =
      let (out, back) = union-In n s (new_sums m ps s) in
      (
        λ i. elim (out i) [
          | inl j ↦ let (g, l) = (h n).0 j in (SumOf-le k (suc k) ps n (omega arith) g, l)
          | inr j ↦
              let (a, p, x, y, e, l) = new_sums-IsNew n s j in
              let (g, _) = (h a).0 x in (inr (p, a, y, e, g), l)
        ],
        λ (g, l). elim g [
          | inl z ↦ back (inl ((h n).1 (subst (λ v. SumOf k ps v) (sym z) (SumOf-zero k ps), l)))
          | inr (p, a, y, e, f) ↦
              let x = (h a).1 (f, omega arith) in back (inr (IsNew-new_sums n s (a, p, x, y, e, l)))
        ],
      )

  -- When a round gives nothing new, no longer sum does.
  closed :
      (k : ℕ) (s : List ℕ)
      → Holds k s
      → ((n : ℕ) → In n (new_sums m ps s) → In n s)
      → (r n : ℕ) → SumOf r ps n
      → n ≤ m
      → In n s
  closed k s h c zero n g l = (h n).1 (subst (λ v. SumOf k ps v) (sym g) (SumOf-zero k ps), l)
  closed k s h c (suc r) n (inl g) l =
      (h n).1 (subst (λ v. SumOf k ps v) (sym g) (SumOf-zero k ps), l)
  closed k s h c (suc r) n (inr (p, a, y, e, f)) l =
      let x = closed k s h c r a f (omega arith) in c n (IsNew-new_sums n s (a, p, x, y, e, l))

  -- The rounds find the sums of as many more prices, whether or not they stop early.
  reached_iff : (r k : ℕ) (s : List ℕ) → Holds k s → (reached r m ps s ≡ true) ↔ SumOf (r + k) ps m
  unfolding reached
  reached_iff zero k s h =
      let (to, from) = has_iff m s in
      (
        λ e. SumOf-le k (0 + k) ps m (omega arith) ((h m).0 (to e)).0,
        λ g. from ((h m).1 (SumOf-le (0 + k) k ps m (omega arith) g, omega arith)),
      )
  reached_iff (suc r) k s h =
      let nuevos = new_sums m ps s in
      let todos = union s nuevos in
      let (all_to, _) = all_iff (λ n. has n s) nuevos in
      elim (Bool-cases (all (λ n. has n s) nuevos)) [
        | inl e ↦
            let (to, from) = has_iff m s in
            let inside : (n : ℕ) → In n nuevos → In n s = λ n i. (has_iff n s).0 (all_to e n i) in
            rw e (
              λ f. SumOf-le k (suc r + k) ps m (omega arith) ((h m).0 (to f)).0,
              λ g. from (closed k s h inside (suc r + k) m g (omega arith)),
            )
        | inr e ↦ elim (Bool-cases (has m todos)) [
          | inl f ↦
              let g = (Holds-suc k s h m).0 ((has_iff m todos).0 f) in
              rw (e, f) (λ _. SumOf-le (suc k) (suc r + k) ps m (omega arith) g.0, λ _. refl)
          | inr f ↦
              let (to, from) = reached_iff r (suc k) todos (Holds-suc k s h) in
              rw (e, f)
                (
                  λ b. SumOf-le (r + suc k) (suc r + k) ps m (omega arith) (to b),
                  λ g. from (SumOf-le (suc r + k) (r + suc k) ps m (omega arith) g),
                )
        ]
      ]

  start-Holds : Holds 0 (0 ∷ [])
  start-Holds n = (λ i. elim i [ inl e ↦ (e, omega arith) | inr j ↦ absurd j ], λ (e, l). inl e)

-- The amount is 2 to 100 times a price.
abbrev pub MultipleOf : ℕ → ℕ → Type 0
MultipleOf m p = (k : ℕ) × (2 ≤ k) × (k ≤ 100) × (m ≡ k * p)

is_multiple_iff : (m p : ℕ) → (is_multiple m p ≡ true) ↔ ((0 < p) × MultipleOf m p)
is_multiple_iff m p = (
  λ h.
      let e : m ≡ m / p * p + m % p = omega arith in
      let z : m % p ≡ 0 = (==_iff (m % p) 0).0 (ground arith) in
      (ground arith, (m / p, ground arith, ground arith, omega arith)),
  λ (q, (k, l, g, e)).
      let d : m / p ≡ k = ap (λ x. x / p) e ∙ mul-div_cancel k q in
      let r : m % p ≡ 0 = ap (λ x. x % p) e ∙ mul-mod_left k p in ground arith,
)

-- An amount is derivable from the cited prices exactly when there are some, and it is 2 to 100
-- times one of them that is not 0, or the sum of at most ten of them, repeated or not.
pub derivable_iff :
    (m : ℕ) (ps : List ℕ)
    → (derivable m ps ≡ true)
      ↔ ((truthy ps ≡ true) × (((p : ℕ) × In p ps × ((0 < p) × MultipleOf m p)) ⊎ SumOf 10 ps m))
unfolding derivable
derivable_iff m ps =
    let (to, from) = any_iff (is_multiple m) ps in
    let (out, back) = reached_iff m ps 10 0 (0 ∷ []) (start-Holds m ps) in
    (
      λ h. (
        ground arith,
        elim (Bool-cases (any (is_multiple m) ps)) [
          | inl e ↦ let (p, i, f) = to e in inl (p, i, (is_multiple_iff m p).0 f)
          | inr e ↦ inr (SumOf-le (10 + 0) 10 ps m (omega arith) (out (ground arith)))
        ],
      ),
      λ (t, g). elim g [
        | inl (p, i, f) ↦ let e = from (p, i, (is_multiple_iff m p).1 f) in ground arith
        | inr f ↦ let e = back (SumOf-le 10 (10 + 0) ps m (omega arith) f) in ground arith
      ],
    )
