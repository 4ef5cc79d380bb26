-- ===== src/Audit/Suggestions.antt =====
-- The suggestions of app/workers/audit.py from the issues that were counted.
pub mod Chosen
use insyta_api.Prelude.{
  ℕ, zero, suc, Bool, true, false, not, ◌&&◌, ◌||◌, ltb, leb, ◌==◌, Option, none, some, List, [],
  ◌∷◌, ◌++◌, Text, txt, text_eq, starts_with, take, drop, length, if◌then◌else◌,
}
use insyta_api.Rubric.Scoring.{truthy}
use insyta_api.Audit.Counter.{Counter, most_common}

-- A suggestion; a generated one may have a node and a prompt.
pub record Suggestion : Type 0 where
  pub title : Text
  pub detail : Text
  pub impact : Text
  pub node_json : Option Text
  pub prompt : Option Text

-- `t.replace("_", " ")`
unfoldable pub spaces_for_lines : Text → Text
spaces_for_lines [] = []
spaces_for_lines (c ∷ t) = (if c == b'_' then b' ' else c) ∷ spaces_for_lines t

-- `t.removeprefix(p)`
abbrev pub remove_prefix : Text → Text → Text
remove_prefix p t = if starts_with p t then drop (length p) t else t

unfoldable pub suggestion_for : (ℕ → Text) → Text → ℕ → Suggestion
unfolding spaces_for_lines
suggestion_for show issue n = record {
  title = txt "Reducir casos de " ++ spaces_for_lines issue;
  detail =
      txt "Se detectaron "
      ++ (show n
          ++ (txt " mensajes con '"
              ++ (issue ++ txt "'. Ajustá el flujo/prompt para cubrir estos casos.")));
  impact = show n ++ txt " mensajes afectados";
  node_json = none;
  prompt = none;
}

unfoldable pub suggestions_of : (ℕ → Text) → ℕ → Counter → List Suggestion
unfolding suggestion_for
suggestions_of show min_messages [] = []
suggestions_of show min_messages ((issue, n) ∷ c) =
    if not (truthy issue) || ltb n min_messages
    then suggestions_of show min_messages c
    else suggestion_for show issue n ∷ suggestions_of show min_messages c

-- `_build_suggestions`
unfoldable pub build_suggestions : (ℕ → Text) → Counter → ℕ → List Suggestion
unfolding suggestions_of most_common
build_suggestions show issue_counter min_messages =
    suggestions_of show min_messages (take 3 (most_common issue_counter))

-- A pattern for the generator.
pub record Stat : Type 0 where
  pub issue_type : Text
  pub label : Text
  pub count : ℕ

-- The loop of `_flowless_stats`, with the length of `stats`; it stops at the limit.
unfoldable pub stats_of : ℕ → ℕ → ℕ → Counter → List Stat
unfolding text_eq spaces_for_lines
stats_of limit min_messages len [] = []
stats_of limit min_messages len ((issue, n) ∷ c) =
    let skipped = stats_of limit min_messages len c in
    let rest = stats_of limit min_messages (suc len) c in
    let stat : Stat = record {
      issue_type = issue;
      label = spaces_for_lines (remove_prefix (txt "fraude:") issue);
      count = n;
    } in
    if not (truthy issue) || (text_eq issue (txt "otro") || ltb n min_messages)
    then skipped
    else if leb limit (suc len)
    then stat ∷ []
    else stat ∷ rest

-- `_flowless_stats`
unfoldable pub flowless_stats : Counter → ℕ → ℕ → List Stat
unfolding stats_of most_common
flowless_stats issue_counter min_messages limit =
    stats_of limit min_messages 0 (most_common issue_counter)
