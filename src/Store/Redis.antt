-- ===== src/Store/Redis.antt =====
-- internal/store/store.go: RedisStore, over a client of which only Get, Set and Del are used, and
-- over the encodings of encoding/json. A time to live does not run out here between a Set and the
-- Gets that follow it; only those of the sessions have none.
pub mod Laws
use ytmpt.Common.{ℕ, Bool, true, false, Option, none, some, List, [], ◌∷◌, ◌++◌}
use ytmpt.Common.Text.{Text, lit}
use ytmpt.Models.{ConversionSession}
use ytmpt.Store.{Asset}
use ytmpt.Store.Views.{stamped}

-- What Get returns: bytes, redis.Nil, or another error.
pub data Got (Bytes : Type 0) : Type 0 where
  value : Bytes → Got Bytes
  nil : Got Bytes
  failure : Got Bytes

-- The client, and the encodings: json.Marshal and json.Unmarshal at the two types that are stored,
-- and the bytes of a string. Set and Del tell whether there was no error.
pub record Client : Type 1 where
  pub State : Type 0
  pub Bytes : Type 0
  pub get : Text → State → Got Bytes
  pub set : Text → Bytes → State → Bool × State
  pub del : Text → State → Bool × State
  pub encode : ConversionSession → Option Bytes
  pub decode : Bytes → Option ConversionSession
  pub encode_asset : Asset → Bytes
  pub decode_asset : Bytes → Option Asset
  pub of_text : Text → Bytes
  pub to_text : Bytes → Text

-- A result, ErrNotFound (or ok = false), or another error.
pub data Found {ℓ} (A : Type ℓ) : Type ℓ where
  found : A → Found A
  not_found : Found A
  error : Found A

unfoldable pub session_key : Text → Text
session_key id = lit "session:" ++ id

unfoldable pub url_key : Text → Text
url_key url = lit "url:" ++ url

unfoldable pub variant_key : Text → Text
variant_key hash = lit "variant:" ++ hash

unfoldable pub asset_key : Text → Text
asset_key hash = lit "asset:" ++ hash

abbrev pub read {ℓ} : {B : Type 0} {A : Type ℓ} → (B → Option A) → Got B → Found A
read decode (value b) = elim (decode b) [ none ↦ error | some a ↦ found a ]
read decode nil = not_found
read decode failure = error

module _ (c : Client) where
  unfoldable pub create_session : ConversionSession → c.State → Bool × c.State
  create_session s db = elim (c.encode s) [
    | none ↦ (false, db)
    | some b ↦ c.set (session_key s.id) b db
  ]

  -- The time is written through the pointer, so the session of the caller has it too.
  unfoldable pub update_session :
      ℕ → ConversionSession → c.State → Bool × ConversionSession × c.State
  update_session now s db =
      let s' = stamped now s in
      elim (c.encode s') [
        | none ↦ (false, s', db)
        | some b ↦ (let (ok, db') = c.set (session_key s.id) b db in (ok, s', db'))
      ]

  unfoldable pub get_session : Text → c.State → Found ConversionSession
  get_session id db = read c.decode (c.get (session_key id) db)

  unfoldable pub delete_session : Text → c.State → Bool × c.State
  delete_session id db = c.del (session_key id) db

  unfoldable pub find_by_url : Text → c.State → Found Text
  find_by_url url db = read (λ b. some (c.to_text b)) (c.get (url_key url) db)

  unfoldable pub set_url_map : Text → Text → c.State → Bool × c.State
  set_url_map url id db = c.set (url_key url) (c.of_text id) db

  unfoldable pub set_variant : Text → Text → c.State → Bool × c.State
  set_variant hash out db = c.set (variant_key hash) (c.of_text out) db

  unfoldable pub get_variant : Text → c.State → Found Text
  get_variant hash db = read (λ b. some (c.to_text b)) (c.get (variant_key hash) db)

  unfoldable pub set_asset : Text → Asset → c.State → Bool × c.State
  set_asset hash a db = c.set (asset_key hash) (c.encode_asset a) db

  unfoldable pub get_asset : Text → c.State → Found Asset
  get_asset hash db = read c.decode_asset (c.get (asset_key hash) db)
