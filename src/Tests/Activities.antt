-- ===== src/Tests/Activities.antt =====
-- Groups of activities.
use yhub.Base.{
  ℕ, true, false, none, some, List, [], ◌∷◌, Text, codes, some_of, text_eq, ◌≡◌, refl, inl, inr,
}
use yhub.Activity.{
  Activity, Options, activity_result, sort_activity, insert_activity, group_activity, group_from,
  continues, extend, unique_all, unique_customs, reversed,
}
use yhub.Activity.Grouping.{spans, activity_result-spans}

abbrev act : ℕ → Text → Activity
act t user = record { from = t; to = t; by = some user; custom_attributions = none }

abbrev acts : List Activity
acts = act 7 (codes "b") ∷ act 5 (codes "a") ∷ act 1 (codes "a") ∷ []

abbrev options : Options
options = record {
  group = true;
  group_max_gap = 10;
  group_max_duration = 100;
  include_custom_attributions = false;
  reverse = true;
  limit = 0;
}

two_groups :
    activity_result options acts ≡ act 7 (codes "b") ∷ record (act 1 (codes "a")) { to = 5 } ∷ []
unfolding activity_result sort_activity insert_activity group_activity group_from continues extend
    unique_all unique_customs reversed text_eq
two_groups = refl

activity_result-spans_example :
    some_of (spans (act 5 (codes "a"))) (activity_result options acts) ≡ true
activity_result-spans_example =
    activity_result-spans options (act 5 (codes "a")) acts refl (refl, (refl, (refl, tt)))
      (inr (inl refl))
