-- ===== src/Broker/Numbers.antt =====
-- The identity of the rows of the journal (src/aar/runtime/brokers.py): what a write to the row of
-- one sequence number leaves of the others.
use adaptive_agent_harness.Base.{
  Bool, Bool-cases, Option, arith, if◌then◌else◌, inl, inr, none, refl, some, sym, true, ℕ, ◌∙◌,
  ◌≡◌, ◌≤◌, ◌⊎◌,
}
use adaptive_agent_harness.Base.Table.{count, count-update, find, find-update-kept, update}
use adaptive_agent_harness.Broker.{CallRow, Journal, has_sequence}
use adaptive_agent_harness.Registry.Schema.{Text}

-- No two calls of an operation have one sequence number.
abbrev pub IsNumbered : Journal → Type 0
IsNumbered j = (operation sequence : ℕ) → count (has_sequence operation sequence) j.calls ≤ 1

-- What no write to a row changes
abbrev pub SameCall : CallRow → CallRow → Type 0
SameCall r t =
    (t.operation_id ≡ r.operation_id)
    × (t.sequence ≡ r.sequence)
    × (t.method ≡ r.method)
    × (t.idempotency_key ≡ r.idempotency_key)
    × (t.request_digest ≡ r.request_digest)
    × (t.request_json ≡ r.request_json)
    × (t.response_model ≡ r.response_model)

pub has_sequence-SameCall :
    (operation sequence : ℕ) (r t : CallRow)
    → SameCall r t
    → has_sequence operation sequence t ≡ has_sequence operation sequence r
has_sequence-SameCall operation sequence r t h = ground (arith, h)

-- A test of what no write to a row changes
abbrev pub IsKey : (CallRow → Bool) → Type 0
IsKey q = (r t : CallRow) → SameCall r t → q t ≡ q r

pub SameCall-refl : (r : CallRow) → SameCall r r
SameCall-refl r = (refl, refl, refl, refl, refl, refl, refl)

SameCall-trans : (r s t : CallRow) → SameCall r s → SameCall s t → SameCall r t
SameCall-trans r s t h k = ground (arith, h, k)

-- A row later, when only the row of one sequence number may have been written
abbrev pub Kept : Text → ℕ → CallRow → Option CallRow → Type 0
Kept operation sequence r none = ⊥
Kept operation sequence r (some t) =
    SameCall r t × ((has_sequence operation sequence r ≡ true) ⊎ (t ≡ r))

-- Writes to the row of one sequence number
abbrev pub Writes : Text → ℕ → Journal → Journal → Type 0
Writes operation sequence j j' =
    (j'.controls ≡ j.controls)
    × ((o s : ℕ) → count (has_sequence o s) j'.calls ≡ count (has_sequence o s) j.calls)
    × ((q : CallRow → Bool) (r : CallRow)
        → IsKey q
        → find q j.calls ≡ some r
        → Kept operation sequence r (find q j'.calls))

pub Writes-refl : (operation sequence : ℕ) (j : Journal) → Writes operation sequence j j
Writes-refl operation sequence j =
    (refl, λ o s. refl, λ q r key found. rw found (SameCall-refl r, inr refl))

Kept-trans :
    (operation sequence : ℕ) (r : CallRow) (o p : Option CallRow)
    → Kept operation sequence r o
    → ((t : CallRow) → o ≡ some t → Kept operation sequence t p)
    → Kept operation sequence r p
Kept-trans operation sequence r none p h g = absurd h
Kept-trans operation sequence r (some s) none h g = g s refl
Kept-trans operation sequence r (some s) (some t) h g = join h (g s refl)
  where
    join :
        Kept operation sequence r (some s)
        → Kept operation sequence s (some t)
        → Kept operation sequence r (some t)
    join (a, inl hit) (b, _) = (SameCall-trans r s t a b, inl hit)
    join (a, inr same') k = rw (sym same') k

pub Writes-trans :
    (operation sequence : ℕ) (j k l : Journal)
    → Writes operation sequence j k
    → Writes operation sequence k l
    → Writes operation sequence j l
Writes-trans operation sequence j k l (a, b, c) (a', b', c') = (
  a' ∙ a,
  λ o s. b' o s ∙ b o s,
  λ q r key found.
      Kept-trans operation sequence r (find q k.calls) _ (c q r key found)
        (λ t later. c' q t key later),
)

-- An update that keeps the identity of the rows, of rows that have the number
pub update-Writes :
    (operation sequence : ℕ) (p : CallRow → Bool) (f : CallRow → CallRow) (j : Journal)
    → ((r : CallRow) → p r ≡ true → has_sequence operation sequence r ≡ true)
    → ((r : CallRow) → SameCall r (f r))
    → Writes operation sequence j (record j { calls = update p f j.calls })
update-Writes operation sequence p f j sub same' = (
  refl,
  λ o s.
      count-update (has_sequence o s) p f j.calls
        (λ r. has_sequence-SameCall o s r (f r) (same' r)),
  λ q r key found. rw (find-update-kept q p f j.calls r (λ x. key x (f x) (same' x)) found) (row r),
)
  where
    row : (r : CallRow) → Kept operation sequence r (some (if p r then f r else r))
    row r = elim (Bool-cases (p r)) [
      | inl hit ↦ rw hit (same' r, inl (sub r hit))
      | inr miss ↦ rw miss (SameCall-refl r, inr refl)
    ]

pub Writes-IsNumbered :
    (operation sequence : ℕ) (j j' : Journal)
    → Writes operation sequence j j'
    → IsNumbered j
    → IsNumbered j'
Writes-IsNumbered operation sequence j j' (_, counts, _) numbered =
    λ o s. rw (counts o s) (numbered o s)
