-- ===== src/Registry/Visits.antt =====
-- Which operations the rows of `fence_expired_attempts` (src/aar/runtime/registry.py) name.
use mathlib.Core.List.{flat_map}
use adaptive_agent_harness.Base.{
  ==_refl, Bool, List, [], arith, false, is_some, leb, map, none, not, refl, some, true, ℕ, ◌&&◌,
  ◌++◌, ◌==◌, ◌||◌, ◌∷◌, ◌≡◌, ◌≤◌,
}
use adaptive_agent_harness.Base.Table.{find, find_sound, insert_by, order_by, select}
use adaptive_agent_harness.Registry.Schema.{Lease, Operation, Text}

abbrev pub Found : Type 0
Found = Operation × Lease

-- Whether the sweep visits the operation `k`
abbrev pub visits : Text → List Found → Bool
visits k [] = false
visits k (c ∷ cs) = (c.0).operation_id == k || visits k cs

visits-insert_by :
    (k : Text) (first : Found → Found → Bool) (c : Found) (cs : List Found)
    → visits k (insert_by first c cs) ≡ ((c.0).operation_id == k || visits k cs)
unfolding insert_by
visits-insert_by k first c [] = refl
visits-insert_by k first c (d ∷ cs) = ground (arith, visits-insert_by k first c cs)

pub visits-order_by :
    (k : Text) (first : Found → Found → Bool) (cs : List Found)
    → visits k (order_by first cs) ≡ visits k cs
unfolding order_by
visits-order_by k first [] = refl
visits-order_by k first (c ∷ cs) =
    ground (arith, visits-insert_by k first c (order_by first cs), visits-order_by k first cs)

pub visits-append :
    (k : Text) (xs ys : List Found) → visits k (xs ++ ys) ≡ (visits k xs || visits k ys)
visits-append k [] ys = refl
visits-append k (x ∷ xs) ys = ground (arith, visits-append k xs ys)

pub visits-flat_map :
    (k : Text) (f : Operation → List Found) (rows : List Operation) (r : Operation)
    → find (λ x. x.operation_id == k) rows ≡ some r
    → visits k (f r) ≡ true
    → visits k (flat_map f rows) ≡ true
unfolding find flat_map
visits-flat_map k f [] r e h = cc
visits-flat_map k f (x ∷ rows) r e h =
    ground (arith, e, h, visits-append k (f x) (flat_map f rows), visits-flat_map k f rows r)

visits-select :
    (k : Text) (r : Operation) (p q : Lease → Bool) (ls : List Lease) (l : Lease)
    → r.operation_id ≡ k
    → find q ls ≡ some l
    → p l ≡ true
    → visits k (map (λ x. (r, x)) (select p ls)) ≡ true
unfolding find select
visits-select k r p q [] l key h hit = cc
visits-select k r p q (x ∷ ls) l key h hit =
    ground (arith, key, ==_refl k, visits-select k r p q ls l key)

pub visits-leased :
    (k : Text) (r : Operation) (n now epoch : ℕ) (ls : List Lease) (l : Lease)
    → r.operation_id ≡ k
    → find (λ x. x.operation_id == k && x.attempt_no == n && x.lease_epoch == epoch) ls ≡ some l
    → l.released_at_unix_ms ≡ none
    → l.expires_at_unix_ms ≤ now
    → visits k (
        map
          (λ x. (r, x))
          (select
            (λ x.
              x.operation_id == k
              && x.attempt_no == n
              && not (is_some x.released_at_unix_ms)
              && leb x.expires_at_unix_ms now)
            ls))
      ≡ true
visits-leased k r n now epoch ls l key found unreleased due =
    visits-select k r _ (λ x. x.operation_id == k && x.attempt_no == n && x.lease_epoch == epoch) ls
      l key found
      (ground (
        arith,
        unreleased,
        due,
        find_sound (λ x. x.operation_id == k && x.attempt_no == n && x.lease_epoch == epoch) ls l
            found,
      ))
