-- ===== src/Activity.antt =====
-- src/compute-worker.js: the list of activities of the task 'activity', from the activities that were
-- read of the content map on.
pub mod Grouping
use yhub.Base.{
  ℕ, zero, suc, ◌+◌, Bool, true, false, not, ◌&&◌, ◌||◌, Option, none, some, List, [], ◌∷◌, ◌++◌,
  Text, if◌then◌else◌, ltb, leb, text_eq, some_of,
}

-- A custom attribution.
pub record Custom : Type 0 where
  pub k : Text
  pub v : Text

pub record Activity : Type 0 where
  pub from : ℕ
  pub to : ℕ
  pub by : Option Text
  pub custom_attributions : Option (List Custom)

-- `activity.sort((a, b) => a.from - b.from)`, which is stable.
unfoldable pub insert_activity : Activity → List Activity → List Activity
insert_activity a [] = a ∷ []
insert_activity a (b ∷ bs) =
    let rest = insert_activity a bs in if leb a.from b.from then a ∷ b ∷ bs else b ∷ rest

unfoldable pub sort_activity : List Activity → List Activity
unfolding insert_activity
sort_activity [] = []
sort_activity (a ∷ rest) = insert_activity a (sort_activity rest)

abbrev pub same_by : Option Text → Option Text → Bool
same_by none none = true
same_by none (some b) = false
same_by (some a) none = false
same_by (some a) (some b) = text_eq a b

-- Whether an activity continues the last one.
unfoldable pub continues : ℕ → ℕ → Activity → Activity → Bool
continues distance duration last act =
    same_by last.by act.by && ltb act.from (last.to + distance) && ltb act.to (last.from + duration)

abbrev pub customs : Option (List Custom) → List Custom
customs none = []
customs (some cs) = cs

unfoldable pub extend : Activity → Activity → Activity
extend last act = record last {
  to = act.to;
  custom_attributions = elim last.custom_attributions [
    | none ↦ none
    | some cs ↦ some (cs ++ customs act.custom_attributions)
  ];
}

-- The activities behind the last one.
unfoldable pub group_from : ℕ → ℕ → Activity → List Activity → List Activity
unfolding continues extend
group_from distance duration last [] = last ∷ []
group_from distance duration last (act ∷ acts) = elim (continues distance duration last act) [
  | true ↦ group_from distance duration (extend last act) acts
  | false ↦ last ∷ group_from distance duration act acts
]

unfoldable pub group_activity : ℕ → ℕ → List Activity → List Activity
unfolding group_from
group_activity distance duration [] = []
group_activity distance duration (act ∷ acts) = group_from distance duration act acts

-- Attributions with the same key text are listed once.
abbrev pub same_custom : Custom → Custom → Bool
same_custom a b = text_eq (a.k ++ b'_' ∷ a.v) (b.k ++ b'_' ∷ b.v)

unfoldable pub unique_from : List Custom → List Custom → List Custom
unique_from seen [] = seen
unique_from seen (c ∷ cs) =
    unique_from (if some_of (same_custom c) seen then seen else seen ++ c ∷ []) cs

unfoldable pub unique_customs : Bool → Activity → Activity
unfolding unique_from
unique_customs include act =
    if include
    then record act {
      custom_attributions = some (unique_from [] (customs act.custom_attributions));
    }
    else act

unfoldable pub unique_all : Bool → List Activity → List Activity
unfolding unique_customs
unique_all include [] = []
unique_all include (act ∷ acts) = unique_customs include act ∷ unique_all include acts

unfoldable pub reversed : List Activity → List Activity → List Activity
reversed done [] = done
reversed done (act ∷ acts) = reversed (act ∷ done) acts

unfoldable pub first_activities : ℕ → List Activity → List Activity
first_activities n [] = []
first_activities zero (act ∷ acts) = []
first_activities (suc n) (act ∷ acts) = act ∷ first_activities n acts

-- The options of the task.
pub record Options : Type 0 where
  pub group : Bool
  pub group_max_gap : ℕ
  pub group_max_duration : ℕ
  pub include_custom_attributions : Bool
  pub reverse : Bool
  pub limit : ℕ

abbrev pub group_distance : Options → ℕ
group_distance o = if o.group then o.group_max_gap else 1

unfoldable pub activity_result : Options → List Activity → List Activity
unfolding sort_activity group_activity unique_all reversed first_activities
activity_result o activity =
    let grouped =
      unique_all o.include_custom_attributions
        (group_activity (group_distance o) o.group_max_duration (sort_activity activity)) in
    let ordered = if o.reverse then reversed [] grouped else grouped in
    if ltb 0 o.limit then first_activities o.limit ordered else ordered
