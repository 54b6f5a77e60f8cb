-- ===== src/Ingestion/Identity.antt =====
-- backend/src/polycopy/ingestion/identity.py. A text is a list of code points, and a JSON value stands
-- as the text that `str` makes of it; none is a missing key or a null. What Python's texts and decimals
-- do is an argument.
use poly.Prelude.{ℕ, Option, none, some, List, [], ◌∷◌, ◌++◌}
use poly.Bookwalk.{Side}

abbrev pub Text : Type 0
Text = List ℕ

-- `str.strip`, `str.lower`, and `format(Decimal(x).normalize(), "f")`, which may raise.
pub record TextOps : Type 0 where
  pub strip : Text → Text
  pub lower : Text → Text
  pub number : Text → Option Text

-- One object of the Data API. The condition and the outcome are only compared, so they are numbers;
-- the condition is that of the text that `str` makes, also of a null ("None"), and none is a missing
-- key. The side is read without regard to case.
pub record RawTrade : Type 0 where
  pub transaction_hash : Option Text
  pub proxy_wallet : Option Text
  pub asset : Option Text
  pub size : Option Text
  pub price : Option Text
  pub timestamp : Option Text
  pub condition_id : Option ℕ
  pub side : Option Side
  pub outcome : ℕ

infixl 5 ◌>>=◌
abbrev ◌>>=◌ : {A B : Type 0} → Option A → (A → Option B) → Option B
none >>= f = none
some a >>= f = f a

-- ":"
abbrev pub colon : ℕ
colon = 58

-- "data-api"
abbrev pub data_api : Text
data_api = 100 ∷ 97 ∷ 116 ∷ 97 ∷ 45 ∷ 97 ∷ 112 ∷ 105 ∷ []

-- `":".join(…)`
unfoldable pub join : ℕ → List Text → Text
join sep [] = []
join sep (x ∷ []) = x
join sep (x ∷ y ∷ ys) = x ++ sep ∷ join sep (y ∷ ys)

module _ (ops : TextOps) where
  unfoldable pub normalize_address : Text → Text
  normalize_address address = ops.lower (ops.strip address)

  -- The components of the key; none is the ValueError of a missing field or the ArithmeticError of a
  -- number.
  unfoldable pub identity_parts : RawTrade → Option (List Text)
  unfolding normalize_address
  identity_parts t = do
    hash ← t.transaction_hash
    wallet ← t.proxy_wallet
    asset ← t.asset
    size ← t.size
    price ← t.price
    time ← t.timestamp
    size_text ← ops.number size
    price_text ← ops.number price
    some (data_api ∷ hash ∷ normalize_address wallet ∷ asset ∷ size_text ∷ price_text ∷ time ∷ [])

  unfoldable pub canonical_trade_id : RawTrade → Option Text
  unfolding identity_parts join
  canonical_trade_id t = elim (identity_parts t) [
    | none ↦ none
    | some parts ↦ some (join colon parts)
  ]
