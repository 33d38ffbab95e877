-- ===== src/Activity/Grouping.antt =====
-- src/compute-worker.js: no activity is lost in the groups.
use yhub.Base.{
  ℕ, ◌≤◌, Bool, true, false, ◌&&◌, ◌||◌, Option, none, some, List, [], ◌∷◌, Text, leb, text_eq_iff,
  text_eq_refl, some_of, ◌≡◌, refl, arith, sym, subst, Bool-cases, ◌⊎◌, inl, inr,
}
use yhub.Activity.{
  Activity, insert_activity, sort_activity, same_by, continues, extend, group_from, group_activity,
  unique_customs, unique_all, reversed, Options, activity_result, group_distance,
}

-- Membership in a list of activities.
abbrev pub In : Activity → List Activity → Type 0
In a [] = ⊥
In a (b ∷ bs) = (a ≡ b) ⊎ In a bs

-- Activities at one moment each.
abbrev pub Moments : List Activity → Type 0
Moments [] = Unit
Moments (a ∷ bs) = (a.from ≡ a.to) × Moments bs

-- The moments do not come before an activity, and are in their order.
abbrev Follow : ℕ → List Activity → Type 0
Follow t [] = Unit
Follow t (a ∷ bs) = (t ≤ a.from) × (a.from ≡ a.to) × Follow a.to bs

-- Whether a group has the author of an activity and spans it.
abbrev pub spans : Activity → Activity → Bool
spans a g = same_by g.by a.by && leb g.from a.from && leb a.to g.to

same_by_trans : (a b c : Option Text) → same_by a b ≡ true → same_by a c ≡ true → same_by b c ≡ true
same_by_trans none none none h k = refl
same_by_trans none none (some c) h k = cc
same_by_trans none (some b) c h k = cc
same_by_trans (some a) none c h k = cc
same_by_trans (some a) (some b) none h k = cc
same_by_trans (some a) (some b) (some c) h k =
    ground (arith, text_eq_iff a b, text_eq_iff a c, text_eq_iff b c)

same_by_refl : (a : Option Text) → same_by a a ≡ true
same_by_refl none = refl
same_by_refl (some a) = text_eq_refl a

spans-longer :
    (a last b : Activity)
    → spans a last ≡ true
    → last.to ≤ b.from
    → b.from ≡ b.to
    → spans a (extend last b) ≡ true
unfolding extend
spans-longer a last b h le at = ground arith

-- What the last group spans is spanned in the end.
group_from-spans :
    (d m : ℕ) (a last : Activity) (acts : List Activity)
    → spans a last ≡ true
    → Follow last.to acts
    → some_of (spans a) (group_from d m last acts) ≡ true
unfolding group_from
group_from-spans d m a last [] h f = ground arith
group_from-spans d m a last (b ∷ acts) h (le, at, f) = elim (Bool-cases (continues d m last b)) [
  | inl e ↦
      rw (e, group_from)
        (group_from-spans d m a (extend last b) acts (spans-longer a last b h le at) f)
  | inr e ↦ rw (e, group_from) (ground arith)
]

spans_refl : (a : Activity) → a.from ≡ a.to → spans a a ≡ true
spans_refl a e = ground (arith, same_by_refl a.by)

spans-extend :
    (d m : ℕ) (last b : Activity)
    → continues d m last b ≡ true
    → last.from ≤ b.from
    → spans b (extend last b) ≡ true
unfolding continues extend
spans-extend d m last b e le = ground arith

or_right : (x y : Bool) → y ≡ true → (x || y) ≡ true
or_right x y h = ground arith

group_from-In :
    (d m : ℕ) (a last : Activity) (acts : List Activity)
    → last.from ≤ last.to
    → Follow last.to acts
    → In a acts
    → some_of (spans a) (group_from d m last acts) ≡ true
unfolding group_from
group_from-In d m a last [] le f h = elim h [ ]
group_from-In d m a last (b ∷ acts) le (lb, at, f) h = elim (Bool-cases (continues d m last b)) [
  | inl e ↦
      rw (e, group_from)
        (elim h [
          | inl same ↦ rw same (
              group_from-spans d m b (extend last b) acts (spans-extend d m last b e (omega arith))
                f)
          | inr later ↦ group_from-In d m a (extend last b) acts (omega arith) f later
        ])
  | inr e ↦
      rw (e, group_from)
        (elim h [
          | inl same ↦
              subst (λ z. some_of (spans z) (last ∷ group_from d m b acts) ≡ true) (sym same)
                (or_right (spans b last) _ (group_from-spans d m b b acts (spans_refl b at) f))
          | inr later ↦ ground (arith, group_from-In d m a b acts (omega arith) f later)
        ])
]

Follow-insert :
    (t : ℕ) (a : Activity) (bs : List Activity)
    → t ≤ a.from
    → a.from ≡ a.to
    → Follow t bs
    → Follow t (insert_activity a bs)
unfolding insert_activity
Follow-insert t a [] le at f = (le, at, tt)
Follow-insert t a (b ∷ bs) le at (lb, bt, f) = elim (Bool-cases (leb a.from b.from)) [
  | inl e ↦ rw e (le, at, (ground arith, bt, f))
  | inr e ↦ rw e (lb, bt, Follow-insert b.to a bs (ground arith) at f)
]

Follow-sort : (acts : List Activity) → Moments acts → Follow 0 (sort_activity acts)
unfolding sort_activity
Follow-sort [] h = tt
Follow-sort (a ∷ acts) (at, h) =
    Follow-insert 0 a (sort_activity acts) (omega arith) at (Follow-sort acts h)

In-insert : (x a : Activity) (bs : List Activity) → (x ≡ a) ⊎ In x bs → In x (insert_activity a bs)
unfolding insert_activity
In-insert x a [] h = h
In-insert x a (b ∷ bs) h = elim (Bool-cases (leb a.from b.from)) [
  | inl e ↦ rw e h
  | inr e ↦ rw e (elim h [
    | inl same ↦ inr (In-insert x a bs (inl same))
    | inr later ↦ elim later [
      | inl first ↦ inl first
      | inr rest ↦ inr (In-insert x a bs (inr rest))
    ]
  ])
]

In-sort : (x : Activity) (acts : List Activity) → In x acts → In x (sort_activity acts)
unfolding sort_activity
In-sort x [] h = h
In-sort x (a ∷ acts) h = elim h [
  | inl same ↦ In-insert x a (sort_activity acts) (inl same)
  | inr later ↦ In-insert x a (sort_activity acts) (inr (In-sort x acts later))
]

group_activity-In :
    (d m : ℕ) (a : Activity) (acts : List Activity)
    → Follow 0 acts
    → In a acts
    → some_of (spans a) (group_activity d m acts) ≡ true
unfolding group_activity
group_activity-In d m a [] f h = elim h [ ]
group_activity-In d m a (b ∷ acts) (_, at, f) h = elim h [
  | inl same ↦ rw same (group_from-spans d m b b acts (spans_refl b at) f)
  | inr later ↦ group_from-In d m a b acts (omega arith) f later
]

-- The later steps keep the author and the times of the groups.
unique_all-spans :
    (include : Bool) (a : Activity) (gs : List Activity)
    → some_of (spans a) (unique_all include gs) ≡ some_of (spans a) gs
unfolding unique_all unique_customs
unique_all-spans include a [] = refl
unique_all-spans true a (g ∷ gs) = ground (arith, unique_all-spans true a gs)
unique_all-spans false a (g ∷ gs) = ground (arith, unique_all-spans false a gs)

reversed-spans :
    (a : Activity) (done gs : List Activity)
    → some_of (spans a) (reversed done gs) ≡ (some_of (spans a) done || some_of (spans a) gs)
unfolding reversed
reversed-spans a done [] = ground arith
reversed-spans a done (g ∷ gs) = ground (arith, reversed-spans a (g ∷ done) gs)

-- Without a limit, each activity that was read of the content map, at one moment, is spanned by an
-- entry of the result with its author, in either order, with or without groups and custom
-- attributions, and whatever the gap and the duration are.
pub activity_result-spans :
    (o : Options) (a : Activity) (acts : List Activity)
    → o.limit ≡ 0
    → Moments acts
    → In a acts
    → some_of (spans a) (activity_result o acts) ≡ true
unfolding activity_result
activity_result-spans o a acts unlimited at h =
    let grouped =
      group_activity-In (group_distance o) o.group_max_duration a (sort_activity acts)
        (Follow-sort acts at) (In-sort a acts h) in
    let unique =
      unique_all-spans o.include_custom_attributions a
        (group_activity (group_distance o) o.group_max_duration (sort_activity acts)) in
    elim (Bool-cases o.reverse) [
      | inl e ↦
          rw (unlimited, e)
            (ground (
              arith,
              reversed-spans a [] (
                  unique_all o.include_custom_attributions
                    (group_activity (group_distance o) o.group_max_duration (sort_activity acts))),
              grouped,
              unique,
            ))
      | inr e ↦ rw (unlimited, e) (ground (arith, grouped, unique))
    ]
