-- ===== src/Errors.antt =====
-- Python exceptions as values, and code that reads and writes a state and may raise.
use uzh_blockchain_data_coll.Base.{◌≡◌, ◌⊎◌, refl, inl, inr, ℕ, Bool, true, false, List, [], ◌∷◌}

-- The exception classes that the program raises or handles; `other` is any further class.
pub data Exc : Type 0 where
  type_error attribute_error value_error key_error index_error not_implemented : Exc
  block_not_found request_timeout connector_error : Exc
  kafka_connection kafka_timeout kafka_error : Exc
  manager_error partitions_empty not_null foreign_key unknown_block_identifier : Exc
  other : ℕ → Exc

pub data Result (A : Type 0) : Type 0 where
  ok : A → Result A
  err : Exc → Result A

-- What was written before a `raise` stays written, so the state comes back in both cases.
abbrev pub M : Type 0 → Type 0 → Type 0
M S A = S → Result A × S

module _ {S A : Type 0} where
  abbrev pub pure : A → M S A
  pure a s = (ok a, s)

  abbrev pub raise : Exc → M S A
  raise e s = (err e, s)

  abbrev pub lift : Result A → M S A
  lift r s = (r, s)

  abbrev pub gets : (S → A) → M S A
  gets f s = (ok (f s), s)

infixl 5 ◌>>=◌ ◌>>◌
abbrev pub ◌>>=◌ : {S A B : Type 0} → M S A → (A → M S B) → M S B
◌>>=◌ m f s = let (r, s') = m s in elim r [ ok a ↦ f a s' | err e ↦ (err e, s') ]

abbrev pub ◌>>◌ : {S B : Type 0} → M S (Unit {0}) → M S B → M S B
m >> k = m >>= λ _. k

abbrev pub modify : {S : Type 0} → (S → S) → M S (Unit {0})
modify f s = (ok tt, f s)

-- `if c: m`
abbrev pub when : {S : Type 0} → Bool → M S (Unit {0}) → M S (Unit {0})
when true m = m
when false m = pure tt

-- `for x in xs: f(x)`
unfoldable pub for_each : {S A : Type 0} → (A → M S (Unit {0})) → List A → M S (Unit {0})
for_each f [] = pure tt
for_each f (x ∷ xs) = f x >> for_each f xs

pub Result-cases : {A : Type 0} (r : Result A) → ((a : A) × (r ≡ ok a)) ⊎ ((e : Exc) × (r ≡ err e))
Result-cases (ok a) = inl (a, refl)
Result-cases (err e) = inr (e, refl)

-- `async with connection.transaction()`: an exception inside undoes the writes and goes on.
abbrev pub in_transaction : {S A : Type 0} → M S A → M S A
in_transaction m s = let (r, s') = m s in elim r [ ok a ↦ (ok a, s') | err e ↦ (err e, s) ]
