-- ===== src/Reputation.antt =====
-- app/services/reputation.py: the running reputation of agents and users. A table is the list of
-- its rows; identifiers are numbers; averages are in hundredths, merged in exact arithmetic.
pub mod Averages
pub mod History
pub mod Users
mod Tests
use insyta_api.Prelude.{
  ℕ, suc, ◌+◌, ◌*◌, ◌≡◌, Bool, true, false, ◌&&◌, ◌||◌, Option, none, some, List, [], ◌∷◌, ◌++◌,
  leb, ltb, ◌==◌, Text, txt, text_eq, take, map, if◌then◌else◌, round_div,
}
use insyta_api.Spc.{Trend, Baseline, FloatStats, SpcSummary, spc_summary}

-- `hashlib.sha256(s.encode()).hexdigest()` is the argument `sha256_hex`.
unfoldable pub hash_user_key : (Text → Text) → Text → Text
hash_user_key sha256_hex external_id =
    take 64 (sha256_hex (txt "insyta-userrep-v1:" ++ external_id))

unfoldable pub client_pseudonym : (Text → Text) → Text → Text
unfolding hash_user_key
client_pseudonym sha256_hex external_id =
    txt "cliente #" ++ take 6 (hash_user_key sha256_hex external_id)

-- `merge_avg`, rounded to hundredths as both callers do: `round(merge_avg(…), 2)`.
unfoldable pub merge_avg : Option ℕ → ℕ → ℕ → ℕ
unfolding round_div
merge_avg none old_count value = value
merge_avg (some old_avg) old_count value =
    if old_count == 0 then value else round_div (old_avg * old_count + value) (old_count + 1)

pub data Label : Type 0 where
  problematico lead_calificado recurrente neutral : Label

-- `risk_label`; the sentiment is in hundredths.
unfoldable pub risk_label : ℕ → Option ℕ → Bool → Label
risk_label fraud_attempts avg_sentiment is_lead =
    if leb 2 fraud_attempts
    then problematico
    else if is_lead
    then lead_calificado
    else elim avg_sentiment [ none ↦ neutral | some s ↦ if leb 400 s then recurrente else neutral ]

-- `user_note`: whether there is a note, and the number of attempts that it names.
unfoldable pub user_note : Bool → ℕ → Option ℕ
user_note usuario_riesgoso fraud_attempts =
    if usuario_riesgoso || ltb 0 fraud_attempts then some fraud_attempts else none

pub record AgentReputation (F : Type 0) : Type 0 where
  pub agent_id : ℕ
  pub org_id : ℕ
  pub project_id : ℕ
  pub avg_score : Option ℕ
  pub score_count : ℕ
  pub veto_count : ℕ
  pub baseline : Option (Baseline F)
  pub trend : Option Trend

pub record UserReputation : Type 0 where
  pub project_id : ℕ
  pub user_key : Text
  pub org_id : ℕ
  pub avg_sentiment : Option ℕ
  pub sentiment_count : ℕ
  pub fraud_attempts : ℕ
  pub usuario_riesgoso : Bool
  pub etiqueta : Label

module _ {F : Type 0} where
  -- The `rep is None` branch: a new row with its counters at 0.
  abbrev pub new_agent : ℕ → ℕ → ℕ → AgentReputation F
  new_agent agent_id org_id project_id = record {
    agent_id = agent_id;
    org_id = org_id;
    project_id = project_id;
    avg_score = none;
    score_count = 0;
    veto_count = 0;
    baseline = none;
    trend = none;
  }

  -- The increments of `update_agent_reputation`.
  unfoldable pub bump_agent : Option ℕ → Bool → AgentReputation F → AgentReputation F
  unfolding merge_avg
  bump_agent none has_veto rep =
      if has_veto then record rep { veto_count = rep.veto_count + 1 } else rep
  bump_agent (some score) has_veto rep = record rep {
    avg_score = some (merge_avg rep.avg_score rep.score_count score);
    score_count = rep.score_count + 1;
    veto_count = if has_veto then rep.veto_count + 1 else rep.veto_count;
  }

  -- `update_agent_reputation`: the agent's row is updated, or a new one is.
  unfoldable pub update_agent_reputation :
      ℕ → ℕ → ℕ → Option ℕ → Bool → List (AgentReputation F) → List (AgentReputation F)
  unfolding bump_agent
  update_agent_reputation agent_id org_id project_id score has_veto [] =
      bump_agent score has_veto (new_agent agent_id org_id project_id) ∷ []
  update_agent_reputation agent_id org_id project_id score has_veto (rep ∷ reps) =
      if rep.agent_id == agent_id
      then bump_agent score has_veto rep ∷ reps
      else rep ∷ update_agent_reputation agent_id org_id project_id score has_veto reps

  -- `select(AgentReputation).where(agent_id == …)`
  unfoldable pub find_agent : ℕ → List (AgentReputation F) → Option (AgentReputation F)
  find_agent agent_id [] = none
  find_agent agent_id (rep ∷ reps) =
      if rep.agent_id == agent_id then some rep else find_agent agent_id reps

  -- The part of `update_agent_spc` that writes a summary to the agent's row; `rounded` is the
  -- rounding of the baseline to the columns' decimals.
  unfoldable pub write_spc :
      (Baseline F → Baseline F)
      → ℕ
      → SpcSummary F
      → List (AgentReputation F)
      → List (AgentReputation F)
  write_spc rounded agent_id s [] = []
  write_spc rounded agent_id s (rep ∷ reps) =
      if rep.agent_id == agent_id
      then record rep { baseline = some (rounded s.baseline); trend = some s.trend } ∷ reps
      else rep ∷ write_spc rounded agent_id s reps

  -- `update_agent_spc` on the scores of the agent's evaluations, by their time.
  unfoldable pub update_agent_spc :
      FloatStats F
      → (F → F → Bool)
      → (Baseline F → Baseline F)
      → ℕ
      → List F
      → List (AgentReputation F)
      → List (AgentReputation F)
  unfolding write_spc spc_summary
  update_agent_spc fs lt rounded agent_id scores reps =
      elim (spc_summary fs lt (map some scores) 20) [
        | none ↦ reps
        | some s ↦ write_spc rounded agent_id s reps
      ]

abbrev pub new_user : ℕ → Text → ℕ → UserReputation
new_user project_id user_key org_id = record {
  project_id = project_id;
  user_key = user_key;
  org_id = org_id;
  avg_sentiment = none;
  sentiment_count = 0;
  fraud_attempts = 0;
  usuario_riesgoso = false;
  etiqueta = neutral;
}

-- The increments of `update_user_reputation`, and the label from the result.
unfoldable pub bump_user : Option ℕ → Bool → Bool → UserReputation → UserReputation
unfolding merge_avg risk_label
bump_user sentiment is_lead is_fraud rep =
    let avg = elim sentiment as (λ _. Option ℕ) [
      | none ↦ rep.avg_sentiment
      | some s ↦ some (merge_avg rep.avg_sentiment rep.sentiment_count s)
    ] in
    let n = elim sentiment as (λ _. ℕ) [
      | none ↦ rep.sentiment_count
      | some _ ↦ rep.sentiment_count + 1
    ] in
    let frauds = if is_fraud then rep.fraud_attempts + 1 else rep.fraud_attempts in
    record rep {
      avg_sentiment = avg;
      sentiment_count = n;
      fraud_attempts = frauds;
      usuario_riesgoso = leb 2 frauds;
      etiqueta = risk_label frauds avg is_lead;
    }

abbrev pub is_user : ℕ → Text → UserReputation → Bool
is_user project_id user_key rep = rep.project_id == project_id && text_eq rep.user_key user_key

-- `update_user_reputation` on the key of the user.
unfoldable pub update_user_reputation :
    ℕ → Text → ℕ → Option ℕ → Bool → Bool → List UserReputation → List UserReputation
unfolding bump_user
update_user_reputation project_id user_key org_id sentiment is_lead is_fraud [] =
    bump_user sentiment is_lead is_fraud (new_user project_id user_key org_id) ∷ []
update_user_reputation project_id user_key org_id sentiment is_lead is_fraud (rep ∷ reps) =
    if is_user project_id user_key rep
    then bump_user sentiment is_lead is_fraud rep ∷ reps
    else rep ∷ update_user_reputation project_id user_key org_id sentiment is_lead is_fraud reps

unfoldable pub find_user : ℕ → Text → List UserReputation → Option UserReputation
find_user project_id user_key [] = none
find_user project_id user_key (rep ∷ reps) =
    if is_user project_id user_key rep then some rep else find_user project_id user_key reps

-- `get_user_note`
unfoldable pub get_user_note : (Text → Text) → ℕ → Text → List UserReputation → Option ℕ
unfolding find_user user_note hash_user_key
get_user_note sha256_hex project_id external_id reps =
    elim (find_user project_id (hash_user_key sha256_hex external_id) reps) [
      | none ↦ none
      | some rep ↦ user_note rep.usuario_riesgoso rep.fraud_attempts
    ]
