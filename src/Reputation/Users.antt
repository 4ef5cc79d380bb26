-- ===== src/Reputation/Users.antt =====
-- What the judge is told of a user after a sequence of audits.
use insyta_api.Prelude.{
  ℕ, ◌+◌, ◌≤◌, ◌≡◌, refl, Bool, true, Option, none, some, List, [], ◌∷◌, arith, Text, text_eq_iff,
  if◌then◌else◌, Bool-cases, inl, inr, leb, ltb,
}
use insyta_api.Reputation.{
  UserReputation, problematico, new_user, bump_user, is_user, update_user_reputation, find_user,
  get_user_note, user_note, hash_user_key, risk_label,
}

-- An audited conversation of a user.
pub record UserEvent : Type 0 where
  pub sentiment : Option ℕ
  pub is_lead : Bool
  pub is_fraud : Bool

-- How many of the conversations are frauds.
abbrev pub frauds : List UserEvent → ℕ
frauds [] = 0
frauds (e ∷ es) = (if e.is_fraud then 1 else 0) + frauds es

-- The row keeps its key, and its flags follow from the fraud count.
record IsLabelled (project : ℕ) (key : Text) (r : UserReputation) : Type 0 where
  project_of : r.project_id ≡ project
  key_of : r.user_key ≡ key
  risky : r.usuario_riesgoso ≡ leb 2 r.fraud_attempts
  labelled : 2 ≤ r.fraud_attempts → r.etiqueta ≡ problematico

module _ (project : ℕ) (key : Text) (org : ℕ) where
  bump_user-IsLabelled :
      (e : UserEvent) (r : UserReputation)
      → r.project_id ≡ project
      → r.user_key ≡ key
      → IsLabelled project key (bump_user e.sentiment e.is_lead e.is_fraud r)
  unfolding bump_user risk_label
  bump_user-IsLabelled e r p k = record {
    project_of = p;
    key_of = k;
    risky = refl;
    labelled = λ h. ground arith;
  }

  bump_user-frauds :
      (e : UserEvent) (r : UserReputation)
      → (bump_user e.sentiment e.is_lead e.is_fraud r).fraud_attempts
        ≡ r.fraud_attempts + (if e.is_fraud then 1 else 0)
  unfolding bump_user
  bump_user-frauds e r = ground arith

  abbrev row_or_new : Option UserReputation → UserReputation
  row_or_new none = new_user project key org
  row_or_new (some r) = r

  abbrev update : UserEvent → List UserReputation → List UserReputation
  update e = update_user_reputation project key org e.sentiment e.is_lead e.is_fraud

  is_user_self :
      (r : UserReputation)
      → r.project_id ≡ project
      → r.user_key ≡ key
      → is_user project key r ≡ true
  is_user_self r p k = ground (arith, (text_eq_iff r.user_key key).1 k)

  is_user-key :
      (r : UserReputation)
      → is_user project key r ≡ true
      → (r.project_id ≡ project) × (r.user_key ≡ key)
  is_user-key r h = (ground arith, (text_eq_iff r.user_key key).0 (ground arith))

  find-update_self :
      (e : UserEvent) (reps : List UserReputation)
      → find_user project key (update e reps)
        ≡ some
            (bump_user e.sentiment e.is_lead e.is_fraud (row_or_new (find_user project key reps)))
  unfolding find_user update_user_reputation
  find-update_self e [] =
      let b = bump_user-IsLabelled e (new_user project key org) refl refl in
      let i =
        is_user_self (bump_user e.sentiment e.is_lead e.is_fraud (new_user project key org))
          b.project_of b.key_of in
      rw i
  find-update_self e (r ∷ reps) = elim (Bool-cases (is_user project key r)) [
    | inl m ↦
        let (p, k) = is_user-key r m in
        let b = bump_user-IsLabelled e r p k in
        let i = is_user_self (bump_user e.sentiment e.is_lead e.is_fraud r) b.project_of b.key_of in
        ground arith
    | inr m ↦ ground (arith, find-update_self e reps)
  ]

  -- The updates of the user's audits, in order.
  abbrev pub run_user : List UserEvent → List UserReputation → List UserReputation
  run_user [] reps = reps
  run_user (e ∷ es) reps = run_user es (update e reps)

  -- The user's row, or what stands for its absence, is labelled and counts the frauds.
  record Tells (r s : UserReputation) (es : List UserEvent) : Type 0 where
    label : IsLabelled project key s
    attempts : s.fraud_attempts ≡ r.fraud_attempts + frauds es

  run_user-Tells :
      (es : List UserEvent) (reps : List UserReputation)
      → IsLabelled project key (row_or_new (find_user project key reps))
      → Tells
          (row_or_new (find_user project key reps))
          (row_or_new (find_user project key (run_user es reps)))
          es
  run_user-Tells [] reps l = record { label = l; attempts = omega arith }
  run_user-Tells (e ∷ es) reps l =
      let r = row_or_new (find_user project key reps) in
      let q = find-update_self e reps in
      let ih =
        run_user-Tells es (update e reps) (rw q (bump_user-IsLabelled e r l.project_of l.key_of)) in
      let ih' = rw q at ih in
      record { label = ih.label; attempts = omega (arith, bump_user-frauds e r, ih'.attempts) }

-- The note and the flags read off a row with `n` frauds, or off its absence.
note_of :
    (project : ℕ) (key : Text) (org n : ℕ) (o : Option UserReputation)
    → IsLabelled project key (row_or_new project key org o)
    → (row_or_new project key org o).fraud_attempts ≡ n
    → (elim o as (λ _. Option ℕ) [
      | none ↦ none
      | some rep ↦ user_note rep.usuario_riesgoso rep.fraud_attempts
    ])
      ≡ (if ltb 0 n then some n else none)
unfolding user_note
note_of project key org n none l e = ground arith
note_of project key org n (some r) l e = let k = l.risky in ground arith

-- For a user without a row, after audits of which `n` are frauds, the judge gets a note exactly if
-- n > 0, and it names n; the row is risky and labelled "problematico" from two frauds on.
pub get_user_note_lem :
    (sha256_hex : Text → Text) (project : ℕ) (external_id : Text) (org : ℕ) (es : List UserEvent)
    (reps : List UserReputation)
    → let key = hash_user_key sha256_hex external_id in
      find_user project key reps ≡ none
      → let after = run_user project key org es reps in
        (get_user_note sha256_hex project external_id after
          ≡ (if ltb 0 (frauds es) then some (frauds es) else none))
        × ((r : UserReputation)
            → find_user project key after ≡ some r
            → (r.usuario_riesgoso ≡ leb 2 (frauds es))
              × (2 ≤ frauds es → r.etiqueta ≡ problematico))
unfolding get_user_note
get_user_note_lem sha project ext org es reps new =
    let key = hash_user_key sha ext in
    let after = run_user project key org es reps in
    let base : IsLabelled project key (new_user project key org) = record {
      project_of = refl;
      key_of = refl;
      risky = refl;
      labelled = λ h. absurd (omega arith);
    } in
    let x = rw new at (run_user-Tells project key org es reps (rw new base)) in
    let attempts : (row_or_new project key org (find_user project key after)).fraud_attempts
        ≡ frauds es =
      omega (arith, x.attempts) in
    (
      note_of project key org (frauds es) (find_user project key after) x.label attempts,
      λ r e.
          let l : IsLabelled project key r = rw e at x.label in
          let n : r.fraud_attempts ≡ frauds es = rw e at attempts in
          (rw n at l.risky, λ h. l.labelled (omega arith)),
    )
