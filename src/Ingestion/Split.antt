-- ===== src/Ingestion/Split.antt =====
-- The keys of backend/src/polycopy/ingestion/identity.py can be read back.
use poly.Prelude.{
  ℕ, ◌≡◌, refl, false, some, List, [], ◌∷◌, ◌++◌, ◌==◌, ==_iff, if◌then◌else◌, All, ◌∙◌, ap,
}
use poly.Ingestion.Identity.{
  Text, TextOps, RawTrade, colon, data_api, join, normalize_address, identity_parts,
  canonical_trade_id,
}

-- A text without the separator.
abbrev pub IsPlain : ℕ → Text → Type 0
IsPlain sep = All (λ c. (c == sep) ≡ false)

abbrev put_first : ℕ → List Text → List Text
put_first c [] = (c ∷ []) ∷ []
put_first c (x ∷ xs) = (c ∷ x) ∷ xs

-- The texts between the separators.
abbrev pub split : ℕ → Text → List Text
split sep [] = [] ∷ []
split sep (c ∷ cs) = if c == sep then [] ∷ split sep cs else put_first c (split sep cs)

split-plain : (sep : ℕ) (x : Text) → IsPlain sep x → split sep x ≡ x ∷ []
split-plain sep [] h = refl
split-plain sep (c ∷ x) h = rw (h.0, split-plain sep x h.1) refl

split-append :
    (sep : ℕ) (x rest : Text) → IsPlain sep x → split sep (x ++ sep ∷ rest) ≡ x ∷ split sep rest
split-append sep [] rest h = rw ((==_iff sep sep).1 refl) refl
split-append sep (c ∷ x) rest h = rw (h.0, split-append sep x rest h.1) refl

split-join :
    (sep : ℕ) (x : Text) (xs : List Text)
    → All (IsPlain sep) (x ∷ xs)
    → split sep (join sep (x ∷ xs)) ≡ x ∷ xs
unfolding join
split-join sep x [] h = split-plain sep x h.0
split-join sep x (y ∷ ys) h =
    split-append sep x (join sep (y ∷ ys)) h.0 ∙ ap (λ zs. x ∷ zs) (split-join sep y ys h.1)

IsPlain-data_api : IsPlain colon data_api
IsPlain-data_api = (refl, (refl, (refl, (refl, (refl, (refl, (refl, (refl, tt))))))))

module _ (ops : TextOps) (t : RawTrade)
    {hash wallet asset size price time size_text price_text : Text}
    (hash_is : t.transaction_hash ≡ some hash) (wallet_is : t.proxy_wallet ≡ some wallet)
    (asset_is : t.asset ≡ some asset) (size_is : t.size ≡ some size)
    (price_is : t.price ≡ some price) (time_is : t.timestamp ≡ some time)
    (size_text_is : ops.number size ≡ some size_text)
    (price_text_is : ops.number price ≡ some price_text) where
  identity_parts_lem :
      identity_parts ops t
      ≡ some (
          data_api
          ∷ hash
          ∷ ops.lower (ops.strip wallet)
          ∷ asset
          ∷ size_text
          ∷ price_text
          ∷ time
          ∷ [])
  unfolding identity_parts normalize_address
  identity_parts_lem =
      rw (hash_is, wallet_is, asset_is, size_is, price_is, time_is, size_text_is, price_text_is)
        refl

  -- The canonical key of a trade with all its fields gives them back: split at the colons it is the
  -- source, the hash, the wallet stripped and in lower case, the asset, the normalized size and price,
  -- and the timestamp, in this order, if none of them has a colon itself.
  pub canonical_trade_id-parts :
      All
        (IsPlain colon)
        (hash ∷ ops.lower (ops.strip wallet) ∷ asset ∷ size_text ∷ price_text ∷ time ∷ [])
      → (id : Text) × (canonical_trade_id ops t ≡ some id)
        × (split colon id
            ≡ data_api
              ∷ hash
              ∷ ops.lower (ops.strip wallet)
              ∷ asset
              ∷ size_text
              ∷ price_text
              ∷ time
              ∷ [])
  unfolding canonical_trade_id
  canonical_trade_id-parts h =
      let rest : List Text =
        hash ∷ ops.lower (ops.strip wallet) ∷ asset ∷ size_text ∷ price_text ∷ time ∷ [] in
      (
        join colon (data_api ∷ rest),
        rw (identity_parts_lem, canonical_trade_id) refl,
        split-join colon data_api rest (IsPlain-data_api, h),
      )
