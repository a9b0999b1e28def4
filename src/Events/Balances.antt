-- ===== src/Events/Balances.antt =====
-- The balances of a token under transfers, to measure what the mappers give against.
use uzh_blockchain_data_coll.Base.{
  ℕ, ◌+◌, Bool, false, List, [], ◌∷◌, ◌==◌, contains, list_eq, nat_eq, ◌≡◌, ◌∙◌, ap, arith,
  if◌then◌else◌,
}
use uzh_blockchain_data_coll.Base.Int.{ℤ, pos, ◌+ℤ◌, ◌-ℤ◌, int_laws}
use uzh_blockchain_data_coll.Base.Text.{Str}
use uzh_blockchain_data_coll.World.{EventLog, TransferArgs}

-- v if the test holds.
abbrev pub counted_if : Bool → ℕ → ℕ
counted_if c v = if c then v else 0

-- The balances after a transfer.
unfoldable pub apply : TransferArgs → (Str → ℤ) → Str → ℤ
apply t b a =
    b a +ℤ (pos (counted_if (a == t.dst) t.value) -ℤ pos (counted_if (a == t.src) t.value))

unfoldable pub apply_all : List (EventLog TransferArgs) → (Str → ℤ) → Str → ℤ
apply_all [] b = b
apply_all (l ∷ ls) b = apply_all ls (apply l.args b)

-- The sum of the balances of some holders.
unfoldable pub held : List Str → (Str → ℤ) → ℤ
held [] b = pos 0
held (h ∷ hs) b = b h +ℤ held hs b

-- No holder stands in the list twice.
abbrev pub AreDistinct : List Str → Type 0
AreDistinct [] = Unit
AreDistinct (h ∷ hs) = (contains hs h ≡ false) × AreDistinct hs

-- What comes to the holders, and what goes from them.
unfoldable pub received : List Str → List (EventLog TransferArgs) → ℕ
received hs [] = 0
received hs (l ∷ ls) = counted_if (contains hs l.args.dst) l.args.value + received hs ls

unfoldable pub paid : List Str → List (EventLog TransferArgs) → ℕ
paid hs [] = 0
paid hs (l ∷ ls) = counted_if (contains hs l.args.src) l.args.value + paid hs ls

add_step :
    (x y : ℤ) (a b c d : ℕ)
    → (x +ℤ (pos a -ℤ pos b)) +ℤ (y +ℤ (pos c -ℤ pos d)) ≡ (x +ℤ y) +ℤ (pos (a + c) -ℤ pos (b + d))
add_step x y a b c d = omega int_laws

counted_if-distinct :
    (a h : Str) (hs : List Str) (v : ℕ)
    → contains hs h ≡ false
    → counted_if (h == a) v + counted_if (contains hs a) v ≡ counted_if (contains (h ∷ hs) a) v
counted_if-distinct a h hs v fresh = ground arith

held-apply :
    (t : TransferArgs) (hs : List Str) (b : Str → ℤ)
    → AreDistinct hs
    → held hs (apply t b)
      ≡ held hs b
        +ℤ (pos (counted_if (contains hs t.dst) t.value)
            -ℤ pos (counted_if (contains hs t.src) t.value))
unfolding held apply
held-apply t [] b distinct = omega int_laws
held-apply t (h ∷ hs) b (fresh, distinct) = rw (held-apply t hs b distinct) (
    add_step (b h) (held hs b) (counted_if (h == t.dst) t.value) (counted_if (h == t.src) t.value)
      (counted_if (contains hs t.dst) t.value) (counted_if (contains hs t.src) t.value)
    ∙ (rw (
      counted_if-distinct t.dst h hs t.value fresh,
      counted_if-distinct t.src h hs t.value fresh,
    )))

chain_step :
    (x : ℤ) (a b c d : ℕ)
    → (x +ℤ (pos a -ℤ pos b)) +ℤ (pos c -ℤ pos d) ≡ x +ℤ (pos (a + c) -ℤ pos (b + d))
chain_step x a b c d = omega int_laws

-- The holders' balances change by what they receive less what they pay.
pub held-apply_all :
    (ls : List (EventLog TransferArgs)) (hs : List Str) (b : Str → ℤ)
    → AreDistinct hs
    → held hs (apply_all ls b) ≡ held hs b +ℤ (pos (received hs ls) -ℤ pos (paid hs ls))
unfolding apply_all received paid
held-apply_all [] hs b distinct = omega int_laws
held-apply_all (l ∷ ls) hs b distinct =
    held-apply_all ls hs (apply l.args b) distinct
    ∙ ap (λ x. x +ℤ (pos (received hs ls) -ℤ pos (paid hs ls))) (held-apply l.args hs b distinct)
    ∙ chain_step (held hs b) (counted_if (contains hs l.args.dst) l.args.value)
        (counted_if (contains hs l.args.src) l.args.value) (received hs ls) (paid hs ls)
