-- ===== src/Broker/Charges.antt =====
-- The usage of the calls of an operation (src/aar/runtime/brokers.py) and its budget.
use adaptive_agent_harness.Base.{
  Bool, Bool-cases, List, [], ap, arith, false, inl, inr, not, refl, some, sym, true, ℕ, ◌&&◌, ◌++◌,
  ◌+◌, ◌==◌, ◌∙◌, ◌∷◌, ◌≡◌, ◌≤◌,
}
use adaptive_agent_harness.Base.Table.{count, find, update, update-none}
use adaptive_agent_harness.Base.Transaction.{Result-cases, ok}
use adaptive_agent_harness.Broker.{
  BrokerUsage, CallRow, add, is_started, is_within, limits, plus, sum_usage, zero_usage,
}
use adaptive_agent_harness.Registry.Schema.{Text}

-- No counter is over the other's.
abbrev pub Below : BrokerUsage → BrokerUsage → Type 0
Below u v =
    (u.model_requests ≤ v.model_requests)
    × (u.input_tokens ≤ v.input_tokens)
    × (u.output_tokens ≤ v.output_tokens)
    × (u.child_operations ≤ v.child_operations)
    × (u.artifact_bytes ≤ v.artifact_bytes)

pub is_within-Below : (b u : BrokerUsage) → is_within b u ≡ true → Below u b
is_within-Below b u h = ground (arith, h)

Below-is_within : (b u : BrokerUsage) → Below u b → is_within b u ≡ true
Below-is_within b u h = ground (arith, h)

pub Below-trans : (u v w : BrokerUsage) → Below u v → Below v w → Below u w
Below-trans u v w (a, b, c, d, e) (a', b', c', d', e') = ground arith

Below-add : (u v w : BrokerUsage) → Below u v → Below (add u w) (add v w)
Below-add u v w h = ground (arith, h)

Below-refl : (u : BrokerUsage) → Below u u
Below-refl u = ground arith

Below-more : (u v : BrokerUsage) → Below u (add u v)
Below-more u v = ground arith

add-swap : (u v w : BrokerUsage) → add (add u v) w ≡ add (add u w) v
add-swap u v w = λ i. record {
  model_requests = swap u.model_requests v.model_requests w.model_requests i;
  input_tokens = swap u.input_tokens v.input_tokens w.input_tokens i;
  output_tokens = swap u.output_tokens v.output_tokens w.output_tokens i;
  child_operations = swap u.child_operations v.child_operations w.child_operations i;
  artifact_bytes = swap u.artifact_bytes v.artifact_bytes w.artifact_bytes i;
}
  where
    swap : (a b c : ℕ) → a + b + c ≡ a + c + b
    swap a b c = omega arith

pub plus-ok : (u v w : BrokerUsage) → plus u v ≡ ok w → (w ≡ add u v) × Below (add u v) limits
unfolding plus
plus-ok u v w h = elim (Bool-cases (is_within limits (add u v))) [
  | inl fits ↦ (ground (arith, h, fits), is_within-Below limits (add u v) fits)
  | inr over ↦ ground (arith, h, over)
]

plus-Below : (u v : BrokerUsage) → Below (add u v) limits → plus u v ≡ ok (add u v)
unfolding plus
plus-Below u v h = rw (Below-is_within limits (add u v) h) refl

abbrev pub is_counted : Text → CallRow → Bool
is_counted operation r = r.operation_id == operation && not (is_started r.state)

sum_usage-cons :
    (operation : ℕ) (r : CallRow) (rows : List CallRow) (t s : BrokerUsage)
    → sum_usage operation (r ∷ rows) t ≡ ok s
    → is_counted operation r ≡ true
    → (plus t r.usage ≡ ok (add t r.usage)) × (sum_usage operation rows (add t r.usage) ≡ ok s)
unfolding sum_usage
sum_usage-cons operation r rows t s h counted = elim (Result-cases (plus t r.usage)) [
  | inl (x, over) ↦ ground (arith, h, counted, over)
  | inr (w, added) ↦
      let (is, below) = plus-ok t r.usage w added in
      (rw added (ap ok is), rw (sym is) (ground (arith, h, counted, added)))
]

-- The sum is not under where it starts.
sum_usage-Below :
    (operation : ℕ) (rows : List CallRow) (t s : BrokerUsage)
    → sum_usage operation rows t ≡ ok s
    → Below t s
unfolding sum_usage
sum_usage-Below operation [] t s h = let is : t ≡ s = ground (arith, h) in rw is (Below-refl s)
sum_usage-Below operation (r ∷ rows) t s h = elim (Bool-cases (is_counted operation r)) [
  | inl counted ↦
      let (added, rest) = sum_usage-cons operation r rows t s h counted in
      let below = sum_usage-Below operation rows (add t r.usage) s rest in
      Below-trans t (add t r.usage) s (Below-more t r.usage) below
  | inr skipped ↦ sum_usage-Below operation rows t s (ground (arith, h, skipped))
]

sum_usage-counted :
    (operation : ℕ) (r : CallRow) (rows : List CallRow) (t w : BrokerUsage)
    → is_counted operation r ≡ true
    → plus t r.usage ≡ ok w
    → sum_usage operation (r ∷ rows) t ≡ sum_usage operation rows w
unfolding sum_usage
sum_usage-counted operation r rows t w counted added = rw (counted, added) refl

sum_usage-skipped :
    (operation : ℕ) (r : CallRow) (rows : List CallRow) (t : BrokerUsage)
    → is_counted operation r ≡ false
    → sum_usage operation (r ∷ rows) t ≡ sum_usage operation rows t
unfolding sum_usage
sum_usage-skipped operation r rows t skipped = rw skipped refl

Below-swap : (t u v s : BrokerUsage) → Below (add t v) s → Below (add (add t u) v) (add s u)
Below-swap t u v s h = ground (arith, h)

-- A sum that starts later ends later.
sum_usage-shift :
    (operation : ℕ) (rows : List CallRow) (t s u : BrokerUsage)
    → sum_usage operation rows t ≡ ok s
    → Below (add s u) limits
    → sum_usage operation rows (add t u) ≡ ok (add s u)
unfolding sum_usage
sum_usage-shift operation [] t s u h below =
    let is : t ≡ s = ground (arith, h) in ap (λ x. ok (add x u)) is
sum_usage-shift operation (r ∷ rows) t s u h below = elim (Bool-cases (is_counted operation r)) [
  | inr skipped ↦
      sum_usage-skipped operation r rows (add t u) skipped
      ∙ sum_usage-shift operation rows t s u
          (sym (sum_usage-skipped operation r rows t skipped) ∙ h) below
  | inl counted ↦
      let (added, rest) = sum_usage-cons operation r rows t s h counted in
      let under = sum_usage-Below operation rows (add t r.usage) s rest in
      let fits : Below (add (add t u) r.usage) limits =
        Below-trans _ (add s u) limits (Below-swap t u r.usage s under) below in
      sum_usage-counted operation r rows (add t u) (add (add t u) r.usage) counted
        (plus-Below (add t u) r.usage fits)
      ∙ ap (sum_usage operation rows) (add-swap t u r.usage)
      ∙ sum_usage-shift operation rows (add t r.usage) s u rest below
]

-- A change of one row that charges it `u` more
abbrev pub Charges : Text → CallRow → CallRow → BrokerUsage → Type 0
Charges operation r r' u =
    (rows : List CallRow) (t s : BrokerUsage)
    → sum_usage operation (r ∷ rows) t ≡ ok s
    → Below (add s u) limits
    → sum_usage operation (r' ∷ rows) t ≡ ok (add s u)

pub sum_usage-update :
    (operation : ℕ) (p : CallRow → Bool) (f : CallRow → CallRow) (rows : List CallRow) (r : CallRow)
    (t s u : BrokerUsage)
    → Charges operation r (f r) u
    → sum_usage operation rows t ≡ ok s
    → count p rows ≤ 1
    → find p rows ≡ some r
    → Below (add s u) limits
    → sum_usage operation (update p f rows) t ≡ ok (add s u)
unfolding update find count
sum_usage-update operation p f [] r t s u charge h one found below = ground (arith, found)
sum_usage-update operation p f (x ∷ rows) r t s u charge h one found below =
    elim (Bool-cases (p x)) [
      | inl hit ↦
          let is : x ≡ r = ground (arith, found, hit) in
          let none' : count p rows ≡ 0 = ground (arith, one, hit) in
          rw (hit, update-none p f rows none', is)
            (charge rows t s (ap (λ y. sum_usage operation (y ∷ rows) t) (sym is) ∙ h) below)
      | inr miss ↦
          let one' : count p rows ≤ 1 = ground (arith, one, miss) in
          let found' : find p rows ≡ some r = ground (arith, found, miss) in
          rw miss (elim (Bool-cases (is_counted operation x)) [
            | inr skipped ↦
                sum_usage-skipped operation x (update p f rows) t skipped
                ∙ sum_usage-update operation p f rows r t s u charge
                    (sym (sum_usage-skipped operation x rows t skipped) ∙ h) one' found' below
            | inl counted ↦
                let (added, rest) = sum_usage-cons operation x rows t s h counted in
                sum_usage-counted operation x (update p f rows) t (add t x.usage) counted added
                ∙ sum_usage-update operation p f rows r (add t x.usage) s u charge rest one' found'
                    below
          ])
    ]

pub Below-zero : (u v : BrokerUsage) → Below u v → Below (add u zero_usage) v
Below-zero u v h = ground (arith, h)

pub add-zero : (u : BrokerUsage) → add u zero_usage ≡ u
add-zero u = ground arith

-- A free row that starts, and a started row that closes
pub Charges-start :
    (operation : ℕ) (r r' : CallRow)
    → is_counted operation r ≡ true
    → r.usage ≡ zero_usage
    → is_counted operation r' ≡ false
    → Charges operation r r' zero_usage
Charges-start operation r r' counted free skipped rows t s h below =
    let (added, rest) = sum_usage-cons operation r rows t s h counted in
    let same' : add t r.usage ≡ t = ap (add t) free ∙ add-zero t in
    sum_usage-skipped operation r' rows t skipped
    ∙ ap (sum_usage operation rows) (sym same')
    ∙ rest
    ∙ ap ok (sym (add-zero s))

pub Charges-close :
    (operation : ℕ) (r r' : CallRow)
    → is_counted operation r ≡ false
    → is_counted operation r' ≡ true
    → Charges operation r r' r'.usage
Charges-close operation r r' skipped counted rows t s h below =
    let rest : sum_usage operation rows t ≡ ok s =
      sym (sum_usage-skipped operation r rows t skipped) ∙ h in
    let under = sum_usage-Below operation rows t s rest in
    sum_usage-counted operation r' rows t (add t r'.usage) counted (
      plus-Below t r'.usage
        (Below-trans _ (add s r'.usage) limits (Below-add t s r'.usage under) below))
    ∙ sum_usage-shift operation rows t s r'.usage rest below

-- A new row that is not counted
pub sum_usage-append :
    (operation : ℕ) (rows : List CallRow) (r : CallRow) (t s : BrokerUsage)
    → sum_usage operation rows t ≡ ok s
    → is_counted operation r ≡ false
    → sum_usage operation (rows ++ r ∷ []) t ≡ ok s
sum_usage-append operation [] r t s h skipped = sum_usage-skipped operation r [] t skipped ∙ h
sum_usage-append operation (x ∷ rows) r t s h skipped = elim (Bool-cases (is_counted operation x)) [
  | inr skipped' ↦
      sum_usage-skipped operation x (rows ++ r ∷ []) t skipped'
      ∙ sum_usage-append operation rows r t s
          (sym (sum_usage-skipped operation x rows t skipped') ∙ h) skipped
  | inl counted ↦
      let (added, rest) = sum_usage-cons operation x rows t s h counted in
      sum_usage-counted operation x (rows ++ r ∷ []) t (add t x.usage) counted added
      ∙ sum_usage-append operation rows r (add t x.usage) s rest skipped
]
