-- ===== src/Naming/Greedy.antt =====
-- What the greedy groups of Naming find, in a text whose separators are counted.
use yhub.Base.{
  ℕ, ◌≤◌, Bool, true, Option, none, some, [], ◌∷◌, ◌++◌, Text, ◌==◌, every, count_of, ◌≡◌, arith,
  append_assoc, append-nil,
}
use yhub.Naming.{first_some, greedy}

-- How many separators a text has.
abbrev pub colons : Text → ℕ
colons s = count_of (λ c. c == b':') s

module _ {ℓ} {B : Type ℓ} (cls : ℕ → Bool) (rest : Text → Text → Option B) where
  -- A group fails where its continuation fails on every text with as few separators.
  pub greedy-none :
      (n : ℕ)
      → ((taken s : Text) → colons s ≤ n → rest taken s ≡ none)
      → (taken s : Text) → colons s ≤ n
      → greedy cls rest taken s ≡ none
  unfolding greedy first_some
  greedy-none n fails taken [] h = fails taken [] h
  greedy-none n fails taken (c ∷ cs) h =
      ground (arith, fails taken (c ∷ cs) h, greedy-none n fails (taken ++ c ∷ []) cs)

  -- It stops at the last place where its continuation succeeds.
  pub greedy-last :
      (n : ℕ)
      → ((taken s : Text) → colons s ≤ n → rest taken s ≡ none)
      → (taken xs : Text) (c : ℕ) (cs : Text) (b : B) → every cls xs ≡ true
      → colons cs ≤ n
      → rest (taken ++ xs) (c ∷ cs) ≡ some b
      → greedy cls rest taken (xs ++ c ∷ cs) ≡ some b
  unfolding greedy first_some
  greedy-last n fails taken [] c cs b h k e =
      ground (arith, greedy-none n fails (taken ++ c ∷ []) cs k, append-nil taken)
  greedy-last n fails taken (x ∷ xs) c cs b h k e =
      ground
        (arith, greedy-last n fails (taken ++ x ∷ []) xs c cs b, append_assoc taken (x ∷ []) xs)
