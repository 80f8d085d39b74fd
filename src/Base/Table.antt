-- ===== src/Base/Table.antt =====
-- A table as the list of its rows, in the order of insertion, and the statements on it.
use Prim.Native.Nat.{max}
use adaptive_agent_harness.Base.{
  Bool, Bool-cases, List, Option, [], arith, false, if◌then◌else◌, inl, inr, ltb, none, refl, some,
  true, ℕ, ◌++◌, ◌+◌, ◌<◌, ◌≤◌, ◌∙◌, ◌∷◌, ◌≡◌,
}

module _ {A : Type 0} where
  -- `SELECT ... WHERE p`, one row
  unfoldable pub find : (A → Bool) → List A → Option A
  find p [] = none
  find p (x ∷ xs) = if p x then some x else find p xs

  -- `SELECT ... WHERE p`, every row
  unfoldable pub select : (A → Bool) → List A → List A
  select p [] = []
  select p (x ∷ xs) = let rest = select p xs in if p x then x ∷ rest else rest

  -- `UPDATE ... SET f WHERE p`
  unfoldable pub update : (A → Bool) → (A → A) → List A → List A
  update p f [] = []
  update p f (x ∷ xs) = (if p x then f x else x) ∷ update p f xs

  -- `SELECT changes()` after `UPDATE ... WHERE p`
  unfoldable pub count : (A → Bool) → List A → ℕ
  count p [] = 0
  count p (x ∷ xs) = (if p x then 1 else 0) + count p xs

  -- `COALESCE(MAX(column), 0) ... WHERE p`
  unfoldable pub greatest : (A → Bool) → (A → ℕ) → List A → ℕ
  greatest p column [] = 0
  greatest p column (x ∷ xs) =
      let rest = greatest p column xs in if p x then max (column x) rest else rest

  abbrev pub All {ℓ} : (A → Type ℓ) → List A → Type ℓ
  All P [] = Unit
  All P (x ∷ xs) = P x × All P xs

  -- A lookup by the test of the update, which the update does not move.
  pub find-update :
      (p : A → Bool) (f : A → A) (xs : List A) (x : A)
      → ((y : A) → p y ≡ true → p (f y) ≡ true)
      → find p xs ≡ some x
      → find p (update p f xs) ≡ some (f x)
  unfolding find update
  find-update p f [] x keep h = cc
  find-update p f (y ∷ xs) x keep h = ground (arith, keep y, find-update p f xs x keep)

  -- An update of rows that the lookup does not see, before it and after it.
  pub find-update-missed :
      (q p : A → Bool) (f : A → A) (xs : List A)
      → ((y : A) → p y ≡ true → q y ≡ false)
      → ((y : A) → p y ≡ true → q (f y) ≡ false)
      → find q (update p f xs) ≡ find q xs
  unfolding find update
  find-update-missed q p f [] before after = refl
  find-update-missed q p f (y ∷ xs) before after =
      ground (arith, before y, after y, find-update-missed q p f xs before after)

  -- A lookup by a test that no row's update moves.
  pub find-update-kept :
      (q p : A → Bool) (f : A → A) (xs : List A) (x : A)
      → ((y : A) → q (f y) ≡ q y)
      → find q xs ≡ some x
      → find q (update p f xs) ≡ some (if p x then f x else x)
  unfolding find update
  find-update-kept q p f [] x keep h = cc
  find-update-kept q p f (y ∷ xs) x keep h =
      ground (arith, keep y, find-update-kept q p f xs x keep)

  -- Rows that fail the test of the lookup are not seen by it.
  pub find-append :
      (q : A → Bool) (xs : List A) (y : A)
      → find q (xs ++ y ∷ [])
        ≡ (elim (find q xs) [ some x ↦ some x | none ↦ (if q y then some y else none) ])
  unfolding find
  find-append q [] y = refl
  find-append q (x ∷ xs) y = ground (arith, find-append q xs y)

  pub find-new :
      (q : A → Bool) (xs : List A) (y : A)
      → find q xs ≡ none
      → q y ≡ true
      → find q (xs ++ y ∷ []) ≡ some y
  find-new q xs y free hit = rw (find-append q xs y, free, hit) refl

  pub find_sound : (q : A → Bool) (xs : List A) (x : A) → find q xs ≡ some x → q x ≡ true
  unfolding find
  find_sound q [] x h = cc
  find_sound q (y ∷ xs) x h = ground (arith, find_sound q xs x)

  -- `SELECT ... WHERE p ORDER BY column DESC LIMIT 1`
  unfoldable pub find_last : (A → Bool) → (A → ℕ) → List A → Option A
  find_last p column [] = none
  find_last p column (x ∷ xs) =
      let rest = find_last p column xs in
      if p x
      then some (elim rest [ none ↦ x | some y ↦ if ltb (column x) (column y) then y else x ])
      else rest

  -- `for item in rows:`
  unfoldable pub for_each : {S : Type 0} → (A → S → S) → List A → S → S
  for_each body [] s = s
  for_each body (x ∷ xs) s = for_each body xs (body x s)

  -- What every round keeps, the loop keeps.
  pub for_each-same :
      {S B : Type 0} (g : S → B) (body : A → S → S) (xs : List A) (s : S)
      → ((x : A) (t : S) → g (body x t) ≡ g t)
      → g (for_each body xs s) ≡ g s
  unfolding for_each
  for_each-same g body [] s keep = refl
  for_each-same g body (x ∷ xs) s keep = for_each-same g body xs (body x s) keep ∙ keep x s

  -- `ORDER BY`: insertion, before the first row that does not come first
  unfoldable pub insert_by : (A → A → Bool) → A → List A → List A
  insert_by first c [] = c ∷ []
  insert_by first c (d ∷ ds) =
      let rest = insert_by first c ds in if first c d then c ∷ d ∷ ds else d ∷ rest

  unfoldable pub order_by : (A → A → Bool) → List A → List A
  unfolding insert_by
  order_by first [] = []
  order_by first (c ∷ cs) = insert_by first c (order_by first cs)

  pub All-map : {P Q : A → Type 0} (xs : List A) → ((x : A) → P x → Q x) → All P xs → All Q xs
  All-map [] f h = tt
  All-map (x ∷ xs) f h = (f x h.0, All-map xs f h.1)

  pub All-insert_by :
      (P : A → Type 0) (first : A → A → Bool) (c : A) (ds : List A)
      → P c
      → All P ds
      → All P (insert_by first c ds)
  unfolding insert_by
  All-insert_by P first c [] p h = (p, tt)
  All-insert_by P first c (d ∷ ds) p h = elim (Bool-cases (first c d)) [
    | inl yes' ↦ rw yes' (p, h)
    | inr no' ↦ rw no' (h.0, All-insert_by P first c ds p h.1)
  ]

  pub All-order_by :
      (P : A → Type 0) (first : A → A → Bool) (cs : List A) → All P cs → All P (order_by first cs)
  unfolding order_by
  All-order_by P first [] h = tt
  All-order_by P first (c ∷ cs) h =
      All-insert_by P first c (order_by first cs) h.0 (All-order_by P first cs h.1)

  pub All-trivial : (xs : List A) → All (λ _. Unit {0}) xs
  All-trivial [] = tt
  All-trivial (x ∷ xs) = (tt, All-trivial xs)

  pub count-found :
      (p q : A → Bool) (xs : List A) (x : A) → find p xs ≡ some x → q x ≡ true → 1 ≤ count q xs
  unfolding find count
  count-found p q [] x h hit = cc
  count-found p q (y ∷ xs) x h hit = ground (arith, count-found p q xs x)

  -- A row that one test finds is the one that another test finds, when no two rows pass that.
  pub find-only :
      (p q : A → Bool) (xs : List A) (x : A)
      → find p xs ≡ some x
      → q x ≡ true
      → count q xs ≤ 1
      → find q xs ≡ some x
  unfolding find count
  find-only p q [] x h hit one = cc
  find-only p q (y ∷ xs) x h hit one = ground (arith, count-found p q xs x, find-only p q xs x)

  pub count-update :
      (q p : A → Bool) (f : A → A) (xs : List A)
      → ((y : A) → q (f y) ≡ q y)
      → count q (update p f xs) ≡ count q xs
  unfolding count update
  count-update q p f [] keep = refl
  count-update q p f (y ∷ xs) keep = ground (arith, keep y, count-update q p f xs keep)

  pub count-append :
      (q : A → Bool) (xs : List A) (y : A)
      → count q (xs ++ y ∷ []) ≡ count q xs + (if q y then 1 else 0)
  unfolding count
  count-append q [] y = ground arith
  count-append q (x ∷ xs) y = ground (arith, count-append q xs y)

  -- The greatest value of a column is not under that of a row.
  pub greatest-found :
      (p q : A → Bool) (column : A → ℕ) (xs : List A) (x : A)
      → find q xs ≡ some x
      → p x ≡ true
      → column x ≤ greatest p column xs
  unfolding find greatest
  greatest-found p q column [] x h hit = cc
  greatest-found p q column (y ∷ xs) x h hit = ground (arith, greatest-found p q column xs x)

  -- No row passes a test of values over the greatest one.
  pub count-above :
      (p q : A → Bool) (column : A → ℕ) (xs : List A)
      → ((y : A) → q y ≡ true → p y ≡ true)
      → ((y : A) → q y ≡ true → greatest p column xs < column y)
      → count q xs ≡ 0
  unfolding count greatest
  count-above p q column [] sub above = refl
  count-above p q column (y ∷ xs) sub above =
      let rest = count-above p q column xs sub (λ z hit. ground (arith, above z)) in
      ground (arith, rest, sub y, above y)

  pub update-none : (p : A → Bool) (f : A → A) (xs : List A) → count p xs ≡ 0 → update p f xs ≡ xs
  unfolding count update
  update-none p f [] none' = refl
  update-none p f (y ∷ xs) none' = ground (arith, update-none p f xs)

  pub find-none : (p : A → Bool) (xs : List A) → count p xs ≡ 0 → find p xs ≡ none
  unfolding count find
  find-none p [] none' = refl
  find-none p (y ∷ xs) none' = ground (arith, find-none p xs)

  pub count-sub :
      (p q : A → Bool) (xs : List A) → ((y : A) → p y ≡ true → q y ≡ true) → count p xs ≤ count q xs
  unfolding count
  count-sub p q [] sub = ground arith
  count-sub p q (y ∷ xs) sub = ground (arith, sub y, count-sub p q xs sub)
