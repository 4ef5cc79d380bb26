-- ===== src/Signals/Fraud/Signs.antt =====
-- Lists of flags of fraud by their names.
use insyta_api.Prelude.{
  ◌≡◌, refl, sym, ap, subst, ◌∙◌, ◌⊎◌, inl, inr, ◌↔◌, Bool, true, false, Option, none, some, List,
  [], ◌∷◌, ◌++◌, In, In-append, In-append_left, In-append_right, Text, Bool-cases, arith,
  if◌then◌else◌,
}
use insyta_api.Regex.Relation.{tested, tested-In}
use insyta_api.Validators.Prices.{PriceCheck}
use insyta_api.Signals.Fraud.{FraudFlag}

-- Some flag has the name.
abbrev pub Flagged : List FraudFlag → Text → Type 0
Flagged fs t = (f : FraudFlag) × In f fs × (f.signal ≡ t)

pub both_or : {A B C D : Type 0} → A ↔ C → B ↔ D → (A ⊎ B) ↔ (C ⊎ D)
both_or (to, from) (out, back) = (
  λ x. elim x [ inl a ↦ inl (to a) | inr b ↦ inr (out b) ],
  λ x. elim x [ inl c ↦ inl (from c) | inr d ↦ inr (back d) ],
)

pub Flagged-append :
    (fs gs : List FraudFlag) (t : Text) → Flagged (fs ++ gs) t ↔ (Flagged fs t ⊎ Flagged gs t)
Flagged-append fs gs t = (
  λ (f, i, e). elim (In-append f fs gs i) [ inl j ↦ inl (f, j, e) | inr j ↦ inr (f, j, e) ],
  λ x. elim x [
    | inl (f, i, e) ↦ (f, In-append_left f fs gs i, e)
    | inr (f, i, e) ↦ (f, In-append_right f fs gs i, e)
  ],
)

pub lone_flag :
    (b : Bool) (f : FraudFlag) (t : Text)
    → Flagged (if b then f ∷ [] else []) t ↔ ((t ≡ f.signal) × (b ≡ true))
lone_flag b f t = (
  λ (g, i, e). let (q, h) = tested b g f i in (sym e ∙ ap (λ (x : FraudFlag). x.signal) q, h),
  λ (e, h). (f, tested-In b f h, sym e),
)

pub then_iff : {A B C : Type 0} → A ↔ B → B ↔ C → A ↔ C
then_iff (to, from) (out, back) = (λ a. out (to a), λ c. from (back c))

-- The flags of two signs with others between them.
around :
    (b c : Bool) (f g : FraudFlag) (mid : List FraudFlag) (M : Type 0) (t : Text)
    → Flagged mid t ↔ M
    → Flagged ((if b then f ∷ [] else []) ++ (mid ++ (if c then g ∷ [] else []))) t
      ↔ (((t ≡ f.signal) × (b ≡ true)) ⊎ (M ⊎ ((t ≡ g.signal) × (c ≡ true))))
around b c f g mid M t m =
    let front = if b then f ∷ [] else [] in
    let end = if c then g ∷ [] else [] in
    then_iff (Flagged-append front (mid ++ end) t) (
      both_or (lone_flag b f t) (then_iff (Flagged-append mid end t) (both_or m (lone_flag c g t))))

pub some-inj : {A : Type 0} (x y : A) → some x ≡ some y → x ≡ y
some-inj x y h = ground arith

abbrev pub Signs : Bool → Bool → Bool → Text → Text → Text → Text → Type 0
Signs b c d f s g t = ((t ≡ f) × (b ≡ true)) ⊎ (((t ≡ s) × (c ≡ true)) ⊎ ((t ≡ g) × (d ≡ true)))

-- The flags of a message by its three signs; the middle one may raise.
pub three_signs :
    (b c d : Bool) (p : Option FraudFlag) (f g : FraudFlag) (fs : List FraudFlag) (s : Text)
    → (if c
        then elim p as (λ _. Option (List FraudFlag)) [
          | none ↦ none
          | some m ↦ some ((if b then f ∷ [] else []) ++ m ∷ (if d then g ∷ [] else []))
        ]
        else some ((if b then f ∷ [] else []) ++ (if d then g ∷ [] else [])))
      ≡ some fs
    → ((m : FraudFlag) → p ≡ some m → m.signal ≡ s)
    → (t : Text)
    → Flagged fs t
      ↔ (((t ≡ f.signal) × (b ≡ true)) ⊎ (((t ≡ s) × (c ≡ true)) ⊎ ((t ≡ g.signal) × (d ≡ true))))
three_signs b false d p f g fs s h k t =
    subst (λ v. Flagged v t ↔ Signs b false d f.signal s g.signal t) (some-inj _ fs h)
      (around b d f g [] ((t ≡ s) × (false ≡ true)) t
        (λ (m, i, e). absurd i, λ (e, q). absurd (ground arith)))
three_signs b true d none f g fs s h k t = absurd (ground arith)
three_signs b true d (some m) f g fs s h k t =
    let q = k m refl in
    subst (λ v. Flagged v t ↔ Signs b true d f.signal s g.signal t) (some-inj _ fs h)
      (around b d f g (m ∷ []) ((t ≡ s) × (true ≡ true)) t (
        λ (x, i, e). elim i [
          | inl j ↦ (sym e ∙ (ap (λ (y : FraudFlag). y.signal) j ∙ q), refl)
          | inr j ↦ absurd j
        ],
        λ (e, r). (m, inl refl, q ∙ sym e),
      ))

pub pressed :
    (c : Bool) (r : Option PriceCheck) (mild strong f : FraudFlag) (s : Text)
    → mild.signal ≡ s
    → strong.signal ≡ s
    → (if c
        then elim r as (λ _. Option FraudFlag) [
          | none ↦ none
          | some x ↦ some (if x.ok then mild else strong)
        ]
        else some mild)
      ≡ some f
    → f.signal ≡ s
pressed false r mild strong f s e q h =
    ap (λ (x : FraudFlag). x.signal) (sym (some-inj mild f h)) ∙ e
pressed true none mild strong f s e q h = absurd (ground arith)
pressed true (some x) mild strong f s e q h = elim (Bool-cases x.ok) [
  | inl b ↦ ap (λ (y : FraudFlag). y.signal) (sym (some-inj mild f (rw b at h))) ∙ e
  | inr b ↦ ap (λ (y : FraudFlag). y.signal) (sym (some-inj strong f (rw b at h))) ∙ q
]
