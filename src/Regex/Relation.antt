-- ===== src/Regex/Relation.antt =====
-- What an expression matches, as a relation that does not mention the search for it, and that the
-- search of the engine gives exactly the matches of the relation.
use insyta_api.Regex.{
  Re, one, empty, seq, alt, many, lazy, edge, last_of, next_of, flat, Ends, prefixed, rounds,
  greedy_ends, lazy_ends, ends,
}
use insyta_api.Prelude.{
  ℕ, zero, suc, ◌≤◌, Bool, true, false, Option, List, [], ◌∷◌, ◌++◌, if◌then◌else◌, Text, length,
  ◌≡◌, refl, ap, sym, ◌∙◌, ◌⊎◌, inl, inr, In, In-append, In-append_left, In-append_right,
  append_assoc, length-append, arith, subst,
}

-- Rounds of a repetition, each taking some text.
pub data Star (M : Option ℕ → Text → Text → Type 0) : Option ℕ → Text → Text → Type 0 where
  done : (prev : Option ℕ) (a t : Text) → a ≡ [] → Star M prev a t
  round :
      (prev : Option ℕ) (a : Text) (c : ℕ) (b d t : Text)
      → a ≡ (c ∷ b) ++ d
      → M prev (c ∷ b) (d ++ t)
      → Star M (last_of prev (c ∷ b)) d t
      → Star M prev a t

-- The expression takes the text `a` after the character `prev` and before the text `t`.
unfoldable pub Matches : Re → Option ℕ → Text → Text → Type 0
Matches (one p) prev a t = (c : ℕ) × (a ≡ c ∷ []) × (p c ≡ true)
Matches empty prev a t = a ≡ []
Matches (seq r q) prev a t =
    (b : Text) × (d : Text) × (a ≡ b ++ d)
    × Matches r prev b (d ++ t)
    × Matches q (last_of prev b) d t
Matches (alt r q) prev a t = Matches r prev a t ⊎ Matches q prev a t
Matches (many r) prev a t = Star (Matches r) prev a t
Matches (lazy r) prev a t = Star (Matches r) prev a t
Matches (edge q) prev a t = (a ≡ []) × (q prev (next_of t) ≡ true)

module _ {A B : Type 0} (f : A → List B) where
  pub In-flat : (y : B) (xs : List A) → In y (flat f xs) → (x : A) × In x xs × In y (f x)
  In-flat y [] h = absurd h
  In-flat y (x ∷ xs) h = elim (In-append y (f x) (flat f xs) h) [
    | inl i ↦ (x, inl refl, i)
    | inr i ↦ let (z, j, k) = In-flat y xs i in (z, inr j, k)
  ]

  pub flat-In : (y : B) (x : A) (xs : List A) → In x xs → In y (f x) → In y (flat f xs)
  flat-In y x [] i k = absurd i
  flat-In y x (z ∷ xs) (inl e) k = In-append_left y (f z) (flat f xs) (subst (λ w. In y (f w)) e k)
  flat-In y x (z ∷ xs) (inr i) k = In-append_right y (f z) (flat f xs) (flat-In y x xs i k)

pub In-prefixed :
    (b : Text) (e : Text × Text) (es : Ends)
    → In e (prefixed b es)
    → (a : Text) × (e.0 ≡ b ++ a) × In (a, e.1) es
In-prefixed b e [] h = absurd h
In-prefixed b e (x ∷ es) (inl p) = (x.0, ap (λ w. w.0) p, inl (ap (λ w. (x.0, w.1)) p))
In-prefixed b e (x ∷ es) (inr h) = let (a, p, i) = In-prefixed b e es h in (a, p, inr i)

pub prefixed-In : (b a t : Text) (es : Ends) → In (a, t) es → In (b ++ a, t) (prefixed b es)
prefixed-In b a t [] h = absurd h
prefixed-In b a t (x ∷ es) (inl p) = inl (ap (λ w. (b ++ w.0, w.1)) p)
prefixed-In b a t (x ∷ es) (inr h) = inr (prefixed-In b a t es h)

-- A place: the text from there on is the text taken and the rest.
abbrev pub Sound : (Option ℕ → Text → Text → Type 0) → (Option ℕ → Text → Ends) → Type 0
Sound M body =
    (prev : Option ℕ) (s a t : Text) → In (a, t) (body prev s) → (s ≡ a ++ t) × M prev a t

abbrev pub Complete : (Option ℕ → Text → Text → Type 0) → (Option ℕ → Text → Ends) → Type 0
Complete M body = (prev : Option ℕ) (a t : Text) → M prev a t → In (a, t) (body prev (a ++ t))

stop-In : (a t : Text) → a ≡ [] → ◌≡◌ {A = Text × Text} (a, t) ([], a ++ t)
stop-In a t q = subst (λ v. ◌≡◌ {A = Text × Text} (v, t) ([], v ++ t)) (sym q) refl

rest-le :
    (a : Text) (c : ℕ) (b d : Text) (n : ℕ) → a ≡ (c ∷ b) ++ d → length a ≤ suc n → length d ≤ n
rest-le a c b d n q l = omega (arith, ap length q, length-append b d)

pub tested :
    {A : Type 0} (b : Bool) (x e : A) → In x (if b then e ∷ [] else []) → (x ≡ e) × (b ≡ true)
tested true x e (inl p) = (p, refl)
tested true x e (inr i) = absurd i
tested false x e i = absurd i

pub tested-In : {A : Type 0} (b : Bool) (e : A) → b ≡ true → In e (if b then e ∷ [] else [])
tested-In true e h = inl refl
tested-In false e h = absurd (ground arith)

module _ (M : Option ℕ → Text → Text → Type 0) (body : Option ℕ → Text → Ends) where
  stop-Sound :
      (prev : Option ℕ) (s a t : Text)
      → ◌≡◌ {A = Text × Text} (a, t) ([], s)
      → (s ≡ a ++ t) × Star M prev a t
  stop-Sound prev s a t p =
      let q = ap (λ (w : Text × Text). w.0) p in
      let e = ap (λ (w : Text × Text). w.1) p in
      (sym e ∙ ap (λ v. v ++ t) (sym q), Star.done prev a t q)

  round-Sound :
      (again : Option ℕ → Text → Ends)
      → Sound (Star M) again
      → (prev : Option ℕ) (b r a t : Text) → In (a, t) (rounds again prev (b, r))
      → M prev b r
      → (b ++ r ≡ a ++ t) × Star M prev a t
  round-Sound again g prev [] r a t i m = absurd i
  round-Sound again g prev (c ∷ b) r a t i m =
      let (d, p, j) = In-prefixed (c ∷ b) (a, t) (again (last_of prev (c ∷ b)) r) i in
      let (e, n) = g (last_of prev (c ∷ b)) r d t j in
      (
        ap (λ v. (c ∷ b) ++ v) e ∙ sym (append_assoc (c ∷ b) d t) ∙ ap (λ v. v ++ t) (sym p),
        Star.round prev a c b d t p (subst (λ v. M prev (c ∷ b) v) e m) n,
      )

  rounds-Sound :
      (again : Option ℕ → Text → Ends)
      → Sound M body
      → Sound (Star M) again
      → Sound (Star M) (λ prev s. flat (rounds again prev) (body prev s))
  rounds-Sound again h g prev s a t i =
      let (x, j, k) = In-flat (rounds again prev) (a, t) (body prev s) i in
      let (e, m) = h prev s x.0 x.1 j in
      let (q, n) = round-Sound again g prev x.0 x.1 a t k m in (e ∙ q, n)

  greedy_ends-Sound : (n : ℕ) → Sound M body → Sound (Star M) (greedy_ends n body)
  greedy_ends-Sound zero h prev s a t (inl p) = stop-Sound prev s a t p
  greedy_ends-Sound zero h prev s a t (inr j) = absurd j
  greedy_ends-Sound (suc n) h prev s a t i =
      elim (In-append (a, t) (flat (rounds (greedy_ends n body) prev) (body prev s)) (([], s) ∷ [])
        i) [
          | inl j ↦ rounds-Sound (greedy_ends n body) h (greedy_ends-Sound n h) prev s a t j
          | inr (inl p) ↦ stop-Sound prev s a t p
          | inr (inr j) ↦ absurd j
        ]

  lazy_ends-Sound : (n : ℕ) → Sound M body → Sound (Star M) (lazy_ends n body)
  lazy_ends-Sound zero h prev s a t (inl p) = stop-Sound prev s a t p
  lazy_ends-Sound zero h prev s a t (inr j) = absurd j
  lazy_ends-Sound (suc n) h prev s a t (inl p) = stop-Sound prev s a t p
  lazy_ends-Sound (suc n) h prev s a t (inr j) =
      rounds-Sound (lazy_ends n body) h (lazy_ends-Sound n h) prev s a t j

  round-In :
      (again : Option ℕ → Text → Ends)
      → Complete M body
      → (prev : Option ℕ) (a t : Text) (c : ℕ) (b d : Text) → a ≡ (c ∷ b) ++ d
      → M prev (c ∷ b) (d ++ t)
      → In (d, t) (again (last_of prev (c ∷ b)) (d ++ t))
      → In (a, t) (flat (rounds again prev) (body prev (a ++ t)))
  round-In again h prev a t c b d p m i =
      let there = h prev (c ∷ b) (d ++ t) m in
      let e : (c ∷ b) ++ (d ++ t) ≡ a ++ t =
        sym (append_assoc (c ∷ b) d t) ∙ ap (λ v. v ++ t) (sym p) in
      let here = prefixed-In (c ∷ b) d t (again (last_of prev (c ∷ b)) (d ++ t)) i in
      flat-In (rounds again prev) (a, t) (c ∷ b, d ++ t) (body prev (a ++ t))
        (subst (λ v. In (c ∷ b, d ++ t) (body prev v)) e there)
        (subst (λ v. In (v, t) (prefixed (c ∷ b) (again (last_of prev (c ∷ b)) (d ++ t)))) (sym p)
          here)

  -- As many rounds as there are characters are enough: each takes one.
  greedy_ends-In :
      (n : ℕ)
      → Complete M body
      → (prev : Option ℕ) (a t : Text) → Star M prev a t
      → length a ≤ n
      → In (a, t) (greedy_ends n body prev (a ++ t))
  greedy_ends-In zero h prev a t (Star.done _ _ _ q) l = inl (stop-In a t q)
  greedy_ends-In zero h prev a t (Star.round _ _ c b d _ q m star) l =
      absurd (omega (arith, ap length q))
  greedy_ends-In (suc n) h prev a t (Star.done _ _ _ q) l =
      In-append_right (a, t) (flat (rounds (greedy_ends n body) prev) (body prev (a ++ t)))
        (([], a ++ t) ∷ []) (inl (stop-In a t q))
  greedy_ends-In (suc n) h prev a t (Star.round _ _ c b d _ q m star) l =
      In-append_left (a, t) (flat (rounds (greedy_ends n body) prev) (body prev (a ++ t)))
        (([], a ++ t) ∷ [])
        (round-In (greedy_ends n body) h prev a t c b d q m
          (greedy_ends-In n h (last_of prev (c ∷ b)) d t star (rest-le a c b d n q l)))

  lazy_ends-In :
      (n : ℕ)
      → Complete M body
      → (prev : Option ℕ) (a t : Text) → Star M prev a t
      → length a ≤ n
      → In (a, t) (lazy_ends n body prev (a ++ t))
  lazy_ends-In zero h prev a t (Star.done _ _ _ q) l = inl (stop-In a t q)
  lazy_ends-In zero h prev a t (Star.round _ _ c b d _ q m star) l =
      absurd (omega (arith, ap length q))
  lazy_ends-In (suc n) h prev a t (Star.done _ _ _ q) l = inl (stop-In a t q)
  lazy_ends-In (suc n) h prev a t (Star.round _ _ c b d _ q m star) l = inr (
      round-In (lazy_ends n body) h prev a t c b d q m
        (lazy_ends-In n h (last_of prev (c ∷ b)) d t star (rest-le a c b d n q l)))

-- What the search gives is a match, for every expression.
pub ends-Sound : (r : Re) → Sound (Matches r) (ends r)
unfolding ends Matches
ends-Sound (one p) prev [] a t i = absurd i
ends-Sound (one p) prev (c ∷ s) a t i =
    let (e, h) = tested (p c) (a, t) (c ∷ [], s) i in
    (ap (λ (w : Text × Text). w.0 ++ w.1) (sym e), (c, ap (λ (w : Text × Text). w.0) e, h))
ends-Sound empty prev s a t (inl p) =
    (ap (λ (w : Text × Text). w.0 ++ w.1) (sym p), ap (λ (w : Text × Text). w.0) p)
ends-Sound empty prev s a t (inr j) = absurd j
ends-Sound (seq r q) prev s a t i =
    let (x, j, k) =
      In-flat (λ (e : Text × Text). prefixed e.0 (ends q (last_of prev e.0) e.1)) (a, t)
        (ends r prev s) i in
    let (e, m) = ends-Sound r prev s x.0 x.1 j in
    let (d, p, l) = In-prefixed x.0 (a, t) (ends q (last_of prev x.0) x.1) k in
    let (f, n) = ends-Sound q (last_of prev x.0) x.1 d t l in
    (
      e ∙ ap (λ v. x.0 ++ v) f ∙ sym (append_assoc x.0 d t) ∙ ap (λ v. v ++ t) (sym p),
      (x.0, d, p, subst (λ v. Matches r prev x.0 v) f m, n),
    )
ends-Sound (alt r q) prev s a t i = elim (In-append (a, t) (ends r prev s) (ends q prev s) i) [
  | inl j ↦ let (e, m) = ends-Sound r prev s a t j in (e, inl m)
  | inr j ↦ let (e, m) = ends-Sound q prev s a t j in (e, inr m)
]
ends-Sound (many r) prev s a t i =
    greedy_ends-Sound (Matches r) (ends r) (length s) (ends-Sound r) prev s a t i
ends-Sound (lazy r) prev s a t i =
    lazy_ends-Sound (Matches r) (ends r) (length s) (ends-Sound r) prev s a t i
ends-Sound (edge q) prev s a t i =
    let (e, h) = tested (q prev (next_of s)) (a, t) ([], s) i in
    let f = ap (λ (w : Text × Text). w.1) e in
    (
      ap (λ (w : Text × Text). w.0 ++ w.1) (sym e),
      (ap (λ (w : Text × Text). w.0) e, subst (λ v. q prev (next_of v) ≡ true) (sym f) h),
    )

-- Every match is among what the search gives: its bounds on rounds are enough.
pub ends-Complete : (r : Re) → Complete (Matches r) (ends r)
unfolding ends Matches
ends-Complete (one p) prev a t (c, e, h) =
    subst (λ v. In (v, t) (ends (one p) prev (v ++ t))) (sym e) (tested-In (p c) (c ∷ [], t) h)
ends-Complete empty prev a t e = inl (stop-In a t e)
ends-Complete (seq r q) prev a t (b, d, e, m, n) =
    let j = ends-Complete r prev b (d ++ t) m in
    let k = ends-Complete q (last_of prev b) d t n in
    let f : b ++ (d ++ t) ≡ a ++ t = sym (append_assoc b d t) ∙ ap (λ v. v ++ t) (sym e) in
    flat-In (λ (e : Text × Text). prefixed e.0 (ends q (last_of prev e.0) e.1)) (a, t) (b, d ++ t)
      (ends r prev (a ++ t)) (subst (λ v. In (b, d ++ t) (ends r prev v)) f j)
      (subst (λ v. In (v, t) (prefixed b (ends q (last_of prev b) (d ++ t)))) (sym e)
        (prefixed-In b d t (ends q (last_of prev b) (d ++ t)) k))
ends-Complete (alt r q) prev a t (inl m) =
    In-append_left (a, t) (ends r prev (a ++ t)) (ends q prev (a ++ t)) (ends-Complete r prev a t m)
ends-Complete (alt r q) prev a t (inr m) =
    In-append_right (a, t) (ends r prev (a ++ t)) (ends q prev (a ++ t))
      (ends-Complete q prev a t m)
ends-Complete (many r) prev a t star =
    greedy_ends-In (Matches r) (ends r) (length (a ++ t)) (ends-Complete r) prev a t star
      (omega (arith, length-append a t))
ends-Complete (lazy r) prev a t star =
    lazy_ends-In (Matches r) (ends r) (length (a ++ t)) (ends-Complete r) prev a t star
      (omega (arith, length-append a t))
ends-Complete (edge q) prev a t (e, h) =
    subst (λ v. In (v, t) (ends (edge q) prev (v ++ t))) (sym e)
      (tested-In (q prev (next_of t)) ([], t) h)
