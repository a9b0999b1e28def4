-- ===== src/Model/Hexbytes.antt =====
-- app/model/__init__.py, `Web3BaseModel.transform_hexbytes`: web3's bytes become text before a model
-- is filled.
use uzh_blockchain_data_coll.Base.{ℕ, List, [], ◌∷◌, ◌≡◌, refl, map, ap, ap₂, All}
use uzh_blockchain_data_coll.Base.Dict.{Dict}
use uzh_blockchain_data_coll.Base.Text.{Str}

-- A value of web3's dictionaries, or an element of a list: `J` stands for all that is neither bytes
-- nor text.
pub data Item (J : Type 0) : Type 0 where
  hex_bytes : List ℕ → Item J
  text : Str → Item J
  other : J → Item J

pub data Value (J : Type 0) : Type 0 where
  item : Item J → Value J
  items : List (Item J) → Value J

-- `HexBytes.hex` of the library hexbytes.
module _ {J : Type 0} (hex : List ℕ → Str) where
  -- `v.hex() if isinstance(v, HexBytes) else v`
  unfoldable pub transform_item : Item J → Item J
  transform_item (hex_bytes b) = text (hex b)
  transform_item (text s) = text s
  transform_item (other j) = other j

  unfoldable pub transform_value : Value J → Value J
  unfolding transform_item
  transform_value (item v) = item (transform_item v)
  transform_value (items vs) = items (map transform_item vs)

  -- The loop over `values.items()`.
  unfoldable pub transform_hexbytes : Dict Str (Value J) → Dict Str (Value J)
  unfolding transform_value
  transform_hexbytes [] = []
  transform_hexbytes ((key, value) ∷ values) =
      (key, transform_value value) ∷ transform_hexbytes values

-- What a model may be filled with: no bytes are left.
module _ {J : Type 0} where
  abbrev pub IsPlainItem : Item J → Type 0
  IsPlainItem (hex_bytes b) = ⊥
  IsPlainItem _ = Unit

  abbrev pub IsPlain : Value J → Type 0
  IsPlain (item v) = IsPlainItem v
  IsPlain (items vs) = All IsPlainItem vs

  abbrev pub keys : Dict Str (Value J) → List Str
  keys = map (λ kv. kv.0)

module _ {J : Type 0} (hex : List ℕ → Str) where
  transform_item-IsPlainItem : (v : Item J) → IsPlainItem (transform_item hex v)
  unfolding transform_item
  transform_item-IsPlainItem (hex_bytes b) = tt
  transform_item-IsPlainItem (text s) = tt
  transform_item-IsPlainItem (other j) = tt

  map-IsPlainItem : (vs : List (Item J)) → All IsPlainItem (map (transform_item hex) vs)
  map-IsPlainItem [] = tt
  map-IsPlainItem (v ∷ vs) = (transform_item-IsPlainItem v, map-IsPlainItem vs)

  transform_value-IsPlain : (v : Value J) → IsPlain (transform_value hex v)
  unfolding transform_value
  transform_value-IsPlain (item v) = transform_item-IsPlainItem v
  transform_value-IsPlain (items vs) = map-IsPlainItem vs

  transform_plain_item : (v : Item J) → IsPlainItem v → transform_item hex v ≡ v
  unfolding transform_item
  transform_plain_item (hex_bytes b) plain = absurd plain
  transform_plain_item (text s) plain = refl
  transform_plain_item (other j) plain = refl

  transform_plain_items :
      (vs : List (Item J)) → All IsPlainItem vs → map (transform_item hex) vs ≡ vs
  transform_plain_items [] plain = refl
  transform_plain_items (v ∷ vs) (p, plain) =
      ap₂ ◌∷◌ (transform_plain_item v p) (transform_plain_items vs plain)

  transform_plain : (v : Value J) → IsPlain v → transform_value hex v ≡ v
  unfolding transform_value
  transform_plain (item v) plain = ap item (transform_plain_item v plain)
  transform_plain (items vs) plain = ap items (transform_plain_items vs plain)

  -- Behind transform_hexbytes no value is bytes and no list has bytes among its elements; the
  -- keys and their order stay, and a second transformation changes nothing.
  pub transform_hexbytes-IsPlain :
      (values : Dict Str (Value J))
      → All (λ kv. IsPlain kv.1) (transform_hexbytes hex values)
        × (keys (transform_hexbytes hex values) ≡ keys values)
        × (transform_hexbytes hex (transform_hexbytes hex values) ≡ transform_hexbytes hex values)
  unfolding transform_hexbytes
  transform_hexbytes-IsPlain [] = (tt, refl, refl)
  transform_hexbytes-IsPlain ((key, value) ∷ values) =
      let (plain, same, again) = transform_hexbytes-IsPlain values in
      let now = transform_value-IsPlain value in
      (
        (now, plain),
        ap (λ t. key ∷ t) same,
        ap₂ (λ v t. (key, v) ∷ t) (transform_plain (transform_value hex value) now) again,
      )
