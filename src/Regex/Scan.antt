-- ===== src/Regex/Scan.antt =====
-- `match`, `finditer` and `sub`: the parts they give are matches, and the pieces make up the text.
use insyta_api.Regex.{
  Re, last_of, ends, parts, Piece, plain, found, joined, pieces_from, pieces, founds, find_iter,
  replaced,
}
use insyta_api.Regex.Relation.{Matches, In-flat, ends-Sound}
use insyta_api.Prelude.{
  ℕ, zero, suc, ◌≤◌, Option, none, some, List, [], ◌∷◌, ◌++◌, Text, length, ◌≡◌, refl, ap, sym, ◌∙◌,
  inl, inr, map, In, All, append_assoc, length-append, arith, subst,
}

-- Each expression takes its part.
abbrev pub Takes : List Re → Option ℕ → List Text → Text → Type 0
Takes [] prev [] t = Unit
Takes [] prev (a ∷ m) t = ⊥
Takes (r ∷ rs) prev [] t = ⊥
Takes (r ∷ rs) prev (a ∷ m) t = Matches r prev a (joined m ++ t) × Takes rs (last_of prev a) m t

abbrev Match : Type 0
Match = List Text × Text

cons_In :
    (a : Text) (x : Match) (xs : List Match)
    → In x (map (λ (p : Match). (a ∷ p.0, p.1)) xs)
    → (y : Match) × (x ≡ (a ∷ y.0, y.1)) × In y xs
cons_In a x [] i = absurd i
cons_In a x (y ∷ xs) (inl e) = (y, e, inl refl)
cons_In a x (y ∷ xs) (inr i) = let (z, e, j) = cons_In a x xs i in (z, e, inr j)

-- The matches that are found take their parts, and with the rest they make up the text.
pub parts-Takes :
    (rs : List Re) (prev : Option ℕ) (s : Text) (x : Match)
    → In x (parts rs prev s)
    → (s ≡ joined x.0 ++ x.1) × Takes rs prev x.0 x.1
unfolding parts
parts-Takes [] prev s x (inl e) =
    subst (λ (w : Match). (s ≡ joined w.0 ++ w.1) × Takes [] prev w.0 w.1) (sym e) (refl, tt)
parts-Takes [] prev s x (inr i) = absurd i
parts-Takes (r ∷ rs) prev s x i =
    let (e, j, k) =
      In-flat
        (λ (e : Text × Text).
          map (λ (p : Match). (e.0 ∷ p.0, p.1)) (parts rs (last_of prev e.0) e.1))
        x (ends r prev s) i in
    let (q, m) = ends-Sound r prev s e.0 e.1 j in
    let (y, f, l) = cons_In e.0 x (parts rs (last_of prev e.0) e.1) k in
    let (g, n) = parts-Takes rs (last_of prev e.0) e.1 y l in
    let whole = q ∙ ap (λ v. e.0 ++ v) g ∙ sym (append_assoc e.0 (joined y.0) y.1) in
    subst (λ (w : Match). (s ≡ joined w.0 ++ w.1) × Takes (r ∷ rs) prev w.0 w.1) (sym f)
      (whole, (subst (λ v. Matches r prev e.0 v) g m, n))

-- The pieces written out again, and the matches among them that take their parts.
abbrev pub Cut : List Re → Option ℕ → List Piece → Type 0
Cut rs prev [] = Unit
Cut rs prev (plain c ∷ ps) = Cut rs (some c) ps
Cut rs prev (found m ∷ ps) =
    Takes rs prev m (replaced joined ps) × Cut rs (last_of prev (joined m)) ps

-- What a text is cut into.
abbrev pub CutOf : List Re → Option ℕ → Text → List Piece → Type 0
CutOf rs prev s ps = (replaced joined ps ≡ s) × Cut rs prev ps

-- One step of the scan, when its rest is cut up well.
module _ (rs : List Re) (n : ℕ)
    (again : (prev : Option ℕ) (s : Text)
      → length s ≤ n
      → CutOf rs prev s (pieces_from n rs prev s)) where
  skip-CutOf :
      (prev : Option ℕ) (c : ℕ) (s : Text)
      → length s ≤ n
      → CutOf rs prev (c ∷ s) (plain c ∷ pieces_from n rs (some c) s)
  skip-CutOf prev c s l = let (e, h) = again (some c) s l in (ap (λ v. c ∷ v) e, h)

  found-CutOf :
      (prev : Option ℕ) (c : ℕ) (s : Text)
      → length s ≤ n
      → (m : List Text) (t : Text) → (c ∷ s ≡ joined m ++ t)
      → Takes rs prev m t
      → (b : Text) → joined m ≡ b
      → CutOf rs prev (c ∷ s) (elim b [
        | [] ↦ plain c ∷ pieces_from n rs (some c) s
        | d ∷ a ↦ found m ∷ pieces_from n rs (last_of (some d) a) t
      ])
  found-CutOf prev c s l m t e h [] q = skip-CutOf prev c s l
  found-CutOf prev c s l m t e h (d ∷ a) q =
      let f : c ∷ s ≡ (d ∷ a) ++ t = e ∙ ap (λ v. v ++ t) q in
      let k : length t ≤ n = omega (arith, ap length f, length-append a t) in
      let (g, i) = again (last_of (some d) a) t k in
      (
        ap (λ v. joined m ++ v) g ∙ sym e,
        (
          subst (λ v. Takes rs prev m v) (sym g) h,
          subst (λ v. Cut rs (last_of prev v) (pieces_from n rs (last_of (some d) a) t)) (sym q) i,
        ),
      )

  step-CutOf :
      (prev : Option ℕ) (c : ℕ) (s : Text)
      → length s ≤ n
      → (xs : List Match)
      → ((x : Match) → In x xs → (c ∷ s ≡ joined x.0 ++ x.1) × Takes rs prev x.0 x.1)
      → CutOf rs prev (c ∷ s) (elim xs [
        | [] ↦ plain c ∷ pieces_from n rs (some c) s
        | (m, t) ∷ ms ↦ elim (joined m) [
          | [] ↦ plain c ∷ pieces_from n rs (some c) s
          | d ∷ a ↦ found m ∷ pieces_from n rs (last_of (some d) a) t
        ]
      ])
  step-CutOf prev c s l [] h = skip-CutOf prev c s l
  step-CutOf prev c s l ((m, t) ∷ ms) h =
      let (e, k) = h (m, t) (inl refl) in found-CutOf prev c s l m t e k (joined m) refl

pub pieces_from-CutOf :
    (rs : List Re) (n : ℕ) (prev : Option ℕ) (s : Text)
    → length s ≤ n
    → CutOf rs prev s (pieces_from n rs prev s)
unfolding pieces_from
pieces_from-CutOf rs zero prev [] l = (refl, tt)
pieces_from-CutOf rs zero prev (c ∷ s) l = absurd (omega arith)
pieces_from-CutOf rs (suc n) prev [] l = (refl, tt)
pieces_from-CutOf rs (suc n) prev (c ∷ s) l =
    step-CutOf rs n (pieces_from-CutOf rs n) prev c s (omega arith) (parts rs prev (c ∷ s))
      (parts-Takes rs prev (c ∷ s))

-- The pieces of a text make it up, and each match takes its parts.
pub pieces-CutOf : (rs : List Re) (s : Text) → CutOf rs none s (pieces rs s)
unfolding pieces
pieces-CutOf rs s = pieces_from-CutOf rs (length s) none s (omega arith)

founds-of :
    (rs : List Re) (P : List Text → Type 0)
    → ((prev : Option ℕ) (m : List Text) (t : Text) → Takes rs prev m t → P m)
    → (prev : Option ℕ) (ps : List Piece) → Cut rs prev ps
    → All P (founds ps)
founds-of rs P f prev [] h = tt
founds-of rs P f prev (plain c ∷ ps) h = founds-of rs P f (some c) ps h
founds-of rs P f prev (found m ∷ ps) (h, k) =
    (f prev m (replaced joined ps) h, founds-of rs P f (last_of prev (joined m)) ps k)

-- What holds of every match holds of everything that `finditer` gives.
pub find_iter-All :
    (rs : List Re) (P : List Text → Type 0)
    → ((prev : Option ℕ) (m : List Text) (t : Text) → Takes rs prev m t → P m)
    → (s : Text) → All P (find_iter rs s)
unfolding find_iter
find_iter-All rs P f s = let (e, h) = pieces-CutOf rs s in founds-of rs P f none (pieces rs s) h
