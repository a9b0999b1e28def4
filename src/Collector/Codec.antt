-- ===== src/Collector/Codec.antt =====
-- Messages of the producer as the consumer reads them back.
use mathlib.Core.Path.{subst}
use uzh_blockchain_data_coll.Base.{
  List, sym, inl, inr, ◌≢◌, ◌∙◌, All, Bool-cases, ◌≡◌, refl, ℕ, [], ◌∷◌, ◌++◌, true, false, arith,
  ap, ◌==◌, contains, nat_eq, list_eq,
}
use uzh_blockchain_data_coll.Base.Text.{Str, split, cons_head}
use uzh_blockchain_data_coll.Errors.{ok, err, value_error}
use uzh_blockchain_data_coll.Model.{Mode, full, partial, log_filter, get_logs, mode_value, mode_of}
use uzh_blockchain_data_coll.Collector.{
  separator, encode_kafka_event, decode_kafka_event, unpack_event,
}

split_plain : (sep : ℕ) (s : Str) → contains s sep ≡ false → split sep s ≡ s ∷ []
unfolding split
split_plain sep [] h = refl
split_plain sep (c ∷ s) h = ground (arith, split_plain sep s)

split-append :
    (sep : ℕ) (s t : Str) → contains s sep ≡ false → split sep (s ++ (sep ∷ t)) ≡ s ∷ split sep t
unfolding split
split-append sep [] t h = ground arith
split-append sep (c ∷ s) t h = ground (arith, split-append sep s t)

-- The pieces with the separator between them.
abbrev join : ℕ → List Str → Str
join sep [] = []
join sep (p ∷ []) = p
join sep (p ∷ q ∷ ps) = p ++ (sep ∷ join sep (q ∷ ps))

split-ne-nil : (sep : ℕ) (s : Str) → split sep s ≢ []
unfolding split
split-ne-nil sep [] = cc
split-ne-nil sep (c ∷ s) = ground (arith, split-ne-nil sep s)

join-cons_head : (sep c : ℕ) (ps : List Str) → join sep (cons_head c ps) ≡ c ∷ join sep ps
join-cons_head sep c [] = refl
join-cons_head sep c (p ∷ []) = refl
join-cons_head sep c (p ∷ q ∷ ps) = refl

join-nil_cons : (sep : ℕ) (ps : List Str) → ps ≢ [] → join sep ([] ∷ ps) ≡ sep ∷ join sep ps
join-nil_cons sep [] h = absurd (h refl)
join-nil_cons sep (p ∷ ps) h = refl

join-split : (sep : ℕ) (s : Str) → join sep (split sep s) ≡ s
unfolding split
join-split sep [] = refl
join-split sep (c ∷ s) = ground (
  arith,
  join-split sep s,
  join-cons_head sep c (split sep s),
  join-nil_cons sep (split sep s) (split-ne-nil sep s),
)

-- No piece contains the separator.
abbrev IsPlain : ℕ → List Str → Type 0
IsPlain sep = All (λ p. contains p sep ≡ false)

cons_head-IsPlain :
    (sep c : ℕ) (ps : List Str) → (c == sep) ≡ false → IsPlain sep ps → IsPlain sep (cons_head c ps)
cons_head-IsPlain sep c [] h plain = ground arith
cons_head-IsPlain sep c (p ∷ ps) h plain = ground arith

split-IsPlain : (sep : ℕ) (s : Str) → IsPlain sep (split sep s)
unfolding split
split-IsPlain sep [] = (refl, tt)
split-IsPlain sep (c ∷ s) = elim (Bool-cases (c == sep)) [
  | inl here ↦ rw here (refl, split-IsPlain sep s)
  | inr other ↦ rw other (cons_head-IsPlain sep c (split sep s) other (split-IsPlain sep s))
]

-- A text that splits into two pieces is the pieces with one separator between, none in either.
split_two :
    (sep : ℕ) (s : Str) {a b : Str}
    → split sep s ≡ a ∷ b ∷ []
    → (s ≡ a ++ (sep ∷ b)) × (contains a sep ≡ false) × (contains b sep ≡ false)
split_two sep s h =
    let plain = subst (IsPlain sep) h (split-IsPlain sep s) in
    (sym (join-split sep s) ∙ ap (join sep) h, plain.0, plain.1.0)

mode_of-mode_value : (m : Mode) → mode_of (mode_value m) ≡ ok m
unfolding mode_of list_eq nat_eq
mode_of-mode_value full = refl
mode_of-mode_value partial = refl
mode_of-mode_value log_filter = refl
mode_of-mode_value get_logs = refl

mode_value_plain : (m : Mode) → contains (mode_value m) separator ≡ false
unfolding mode_value nat_eq
mode_value_plain full = refl
mode_value_plain partial = refl
mode_value_plain log_filter = refl
mode_value_plain get_logs = refl

mode_value-mode_of : (s : Str) (m : Mode) → mode_of s ≡ ok m → mode_value m ≡ s
unfolding mode_of
mode_value-mode_of s m h = ground arith

split-encode :
    (tx_hash : Str) (m : Mode)
    → split separator (encode_kafka_event tx_hash m) ≡ mode_value m ∷ split separator tx_hash
unfolding encode_kafka_event
split-encode tx_hash m = split-append separator (mode_value m) tx_hash (mode_value_plain m)

-- A hash without the separator comes back from its message, with its mode.
pub decode-encode :
    (tx_hash : Str) (m : Mode)
    → contains tx_hash separator ≡ false
    → decode_kafka_event (encode_kafka_event tx_hash m) ≡ ok (m, tx_hash)
unfolding decode_kafka_event
decode-encode tx_hash m h =
    rw (split-encode tx_hash m, split_plain separator tx_hash h)
      (ground (arith, mode_of-mode_value m))

unpack_event_ok :
    (ps : List Str) (m : Mode) (tx_hash : Str)
    → unpack_event ps ≡ ok (m, tx_hash)
    → ps ≡ mode_value m ∷ tx_hash ∷ []
unfolding unpack_event
unpack_event_ok (a ∷ b ∷ []) m tx_hash h = ground (arith, mode_value-mode_of a m)
unpack_event_ok _ m tx_hash h = cc

unpack_event_many :
    (s : Str) (ps : List Str) (a : Str)
    → split separator s ≡ ps
    → contains s separator ≡ true
    → unpack_event (a ∷ ps) ≡ err value_error
unfolding unpack_event
unpack_event_many s [] a e h = refl
unpack_event_many s (p ∷ []) a e h =
    let plain = subst (IsPlain separator) e (split-IsPlain separator s) in
    let whole = sym (join-split separator s) ∙ ap (join separator) e in
    cc (ap (λ t. contains t separator) whole, plain.0)
unpack_event_many s (p ∷ q ∷ ps) a e h = refl

-- Every accepted message is the encoding of what is read from it, and the hash read has no
-- separator.
pub encode-decode :
    (event tx_hash : Str) (m : Mode)
    → decode_kafka_event event ≡ ok (m, tx_hash)
    → (encode_kafka_event tx_hash m ≡ event) × (contains tx_hash separator ≡ false)
unfolding decode_kafka_event encode_kafka_event
encode-decode event tx_hash m h =
    let parts = split_two separator event (unpack_event_ok (split separator event) m tx_hash h) in
    (sym parts.0, parts.2)

-- A hash that contains the separator makes a message that the consumer refuses.
pub decode-encode_separator :
    (tx_hash : Str) (m : Mode)
    → contains tx_hash separator ≡ true
    → decode_kafka_event (encode_kafka_event tx_hash m) ≡ err value_error
unfolding decode_kafka_event
decode-encode_separator tx_hash m h =
    rw (split-encode tx_hash m) (unpack_event_many tx_hash _ (mode_value m) refl h)
