-- ===== src/Store/Redis/Laws.antt =====
-- RedisStore over a client that behaves as documented: what was written is read back, and the kinds
-- of entries are kept apart by their keys.
use ytmpt.Common.{ℕ, ◌≡◌, ◌∙◌, ap, Bool, true, refl, false, some, if◌then◌else◌, arith}
use ytmpt.Common.Text.{Text, lit, text_eq}
use ytmpt.Models.{ConversionSession}
use ytmpt.Store.{Asset}
use ytmpt.Store.Views.{stamped}
use ytmpt.Store.Redis.{
  Got, value, nil, Client, Found, found, not_found, read, session_key, url_key, variant_key,
  asset_key, update_session, get_session, delete_session, find_by_url, set_url_map, set_variant,
  get_variant, set_asset, get_asset,
}

-- A server that is up, and encodings that read back what they wrote: json.Marshal replaces what is
-- not UTF-8, so this is asked of the `Storable` sessions and the `Kept` assets only.
pub record IsLawful (Storable : ConversionSession → Type 0) (Kept : Asset → Type 0) (c : Client)
    : Type 0 where
  pub get-set :
      (k j : Text) (b : c.Bytes) (db : c.State)
      → c.get j (c.set k b db).1 ≡ (if text_eq k j then value b else c.get j db)
  pub get-del :
      (k j : Text) (db : c.State)
      → c.get j (c.del k db).1 ≡ (if text_eq k j then nil else c.get j db)
  pub decode-encode :
      (s : ConversionSession)
      → Storable s
      → (b : c.Bytes) × (c.encode s ≡ some b) × (c.decode b ≡ some s)
  pub decode_asset-encode_asset : (a : Asset) → Kept a → c.decode_asset (c.encode_asset a) ≡ some a
  pub to_text-of_text : (t : Text) → c.to_text (c.of_text t) ≡ t

-- The four kinds of entries.
data Kind : Type 0 where
  sessions urls variants assets : Kind

-- The keys of one kind differ as their names do.
keys_alike :
    (a b : Text)
    → (text_eq (session_key a) (session_key b) ≡ text_eq a b)
      × (text_eq (url_key a) (url_key b) ≡ text_eq a b)
      × (text_eq (variant_key a) (variant_key b) ≡ text_eq a b)
      × (text_eq (asset_key a) (asset_key b) ≡ text_eq a b)
unfolding session_key url_key variant_key asset_key lit text_eq
keys_alike a b = (refl, refl, refl, refl)

abbrev key_of : Kind → Text → Text
key_of sessions = session_key
key_of urls = url_key
key_of variants = variant_key
key_of assets = asset_key

abbrev is_same : Kind → Kind → Bool
is_same sessions sessions = true
is_same urls urls = true
is_same variants variants = true
is_same assets assets = true
is_same _ _ = false

-- The keys of two kinds always differ.
keys_apart :
    (k l : Kind) (a b : Text) → is_same k l ≡ false → text_eq (key_of k a) (key_of l b) ≡ false
unfolding session_key url_key variant_key asset_key lit text_eq
keys_apart sessions sessions a b h = absurd (ground arith)
keys_apart sessions urls a b h = refl
keys_apart sessions variants a b h = refl
keys_apart sessions assets a b h = refl
keys_apart urls sessions a b h = refl
keys_apart urls urls a b h = absurd (ground arith)
keys_apart urls variants a b h = refl
keys_apart urls assets a b h = refl
keys_apart variants sessions a b h = refl
keys_apart variants urls a b h = refl
keys_apart variants variants a b h = absurd (ground arith)
keys_apart variants assets a b h = refl
keys_apart assets sessions a b h = refl
keys_apart assets urls a b h = refl
keys_apart assets variants a b h = refl
keys_apart assets assets a b h = absurd (ground arith)

-- The getters of one kind answer alike in two states of the server.
abbrev pub SameSessions : (c : Client) → c.State → c.State → Type 0
SameSessions c db db' = (j : Text) → get_session c j db ≡ get_session c j db'

abbrev pub SameUrls : (c : Client) → c.State → c.State → Type 0
SameUrls c db db' = (j : Text) → find_by_url c j db ≡ find_by_url c j db'

abbrev pub SameVariants : (c : Client) → c.State → c.State → Type 0
SameVariants c db db' = (j : Text) → get_variant c j db ≡ get_variant c j db'

abbrev pub SameAssets : (c : Client) → c.State → c.State → Type 0
SameAssets c db db' = (j : Text) → get_asset c j db ≡ get_asset c j db'

-- What the four kinds of entries promise.
pub record IsKeptApart (Storable : ConversionSession → Type 0) (Kept : Asset → Type 0) (c : Client)
    : Type 0 where
  pub session :
      (now : ℕ) (s : ConversionSession) (j : Text) (db : c.State)
      → Storable (stamped now s)
      → get_session c j (update_session c now s db).2
        ≡ (if text_eq s.id j then found (stamped now s) else get_session c j db)
  pub url :
      (url id j : Text) (db : c.State)
      → find_by_url c j (set_url_map c url id db).1
        ≡ (if text_eq url j then found id else find_by_url c j db)
  pub variant :
      (hash out j : Text) (db : c.State)
      → get_variant c j (set_variant c hash out db).1
        ≡ (if text_eq hash j then found out else get_variant c j db)
  pub asset :
      (hash : Text) (a : Asset) (j : Text) (db : c.State)
      → Kept a
      → get_asset c j (set_asset c hash a db).1
        ≡ (if text_eq hash j then found a else get_asset c j db)
  pub deleted :
      (id j : Text) (db : c.State)
      → get_session c j (delete_session c id db).1
        ≡ (if text_eq id j then not_found else get_session c j db)
  pub session-others :
      (now : ℕ) (s : ConversionSession) (db : c.State)
      → Storable (stamped now s)
      → SameUrls c (update_session c now s db).2 db
        × SameVariants c (update_session c now s db).2 db
        × SameAssets c (update_session c now s db).2 db
  pub url-others :
      (url id : Text) (db : c.State)
      → SameSessions c (set_url_map c url id db).1 db
        × SameVariants c (set_url_map c url id db).1 db
        × SameAssets c (set_url_map c url id db).1 db
  pub variant-others :
      (hash out : Text) (db : c.State)
      → SameSessions c (set_variant c hash out db).1 db
        × SameUrls c (set_variant c hash out db).1 db
        × SameAssets c (set_variant c hash out db).1 db
  pub asset-others :
      (hash : Text) (a : Asset) (db : c.State)
      → SameSessions c (set_asset c hash a db).1 db
        × SameUrls c (set_asset c hash a db).1 db
        × SameVariants c (set_asset c hash a db).1 db
  pub deleted-others :
      (id : Text) (db : c.State)
      → SameUrls c (delete_session c id db).1 db
        × SameVariants c (delete_session c id db).1 db
        × SameAssets c (delete_session c id db).1 db

module _ (Storable : ConversionSession → Type 0) (Kept : Asset → Type 0) (c : Client)
    (L : IsLawful Storable Kept c) where
  -- The entry under the other key is as before.
  get-set_other :
      (k l : Kind) (a j : Text) (b : c.Bytes) (db : c.State)
      → is_same k l ≡ false
      → c.get (key_of l j) (c.set (key_of k a) b db).1 ≡ c.get (key_of l j) db
  get-set_other k l a j b db h =
      L.get-set (key_of k a) (key_of l j) b db
      ∙ ap (λ (t : Bool). if t then value b else c.get (key_of l j) db) (keys_apart k l a j h)

  get-del_other :
      (k l : Kind) (a j : Text) (db : c.State)
      → is_same k l ≡ false
      → c.get (key_of l j) (c.del (key_of k a) db).1 ≡ c.get (key_of l j) db
  get-del_other k l a j db h =
      L.get-del (key_of k a) (key_of l j) db
      ∙ ap (λ (t : Bool). if t then nil else c.get (key_of l j) db) (keys_apart k l a j h)

  abbrev text_of : Got c.Bytes → Found Text
  text_of = read (λ b. some (c.to_text b))

  get_session-update :
      (now : ℕ) (s : ConversionSession) (j : Text) (db : c.State)
      → Storable (stamped now s)
      → get_session c j (update_session c now s db).2
        ≡ (if text_eq s.id j then found (stamped now s) else get_session c j db)
  unfolding get_session update_session
  get_session-update now s j db h =
      let (b, written, back) = L.decode-encode (stamped now s) h in
      rw (written, update_session)
        (ground
          (arith, L.get-set (session_key s.id) (session_key j) b db, (keys_alike s.id j).0, back))

  update_session-others :
      (now : ℕ) (s : ConversionSession) (db : c.State)
      → Storable (stamped now s)
      → SameUrls c (update_session c now s db).2 db
        × SameVariants c (update_session c now s db).2 db
        × SameAssets c (update_session c now s db).2 db
  unfolding update_session find_by_url get_variant get_asset
  update_session-others now s db h =
      let (b, written, back) = L.decode-encode (stamped now s) h in
      rw (written, update_session)
        (
          λ j. ap text_of (get-set_other sessions urls s.id j b db refl),
          λ j. ap text_of (get-set_other sessions variants s.id j b db refl),
          λ j. ap (read c.decode_asset) (get-set_other sessions assets s.id j b db refl),
        )

  pub redis-IsKeptApart : IsKeptApart Storable Kept c
  unfolding get_session find_by_url set_url_map set_variant get_variant set_asset get_asset
      delete_session
  redis-IsKeptApart = record {
    session = get_session-update;
    url = λ url id j db. ground (
      arith,
      L.get-set (url_key url) (url_key j) (c.of_text id) db,
      (keys_alike url j).1,
      L.to_text-of_text id,
    );
    variant = λ hash out j db. ground (
      arith,
      L.get-set (variant_key hash) (variant_key j) (c.of_text out) db,
      (keys_alike hash j).2,
      L.to_text-of_text out,
    );
    asset = λ hash a j db h. ground (
      arith,
      L.get-set (asset_key hash) (asset_key j) (c.encode_asset a) db,
      (keys_alike hash j).3,
      L.decode_asset-encode_asset a h,
    );
    deleted = λ id j db.
        ground (arith, L.get-del (session_key id) (session_key j) db, (keys_alike id j).0);
    session-others = update_session-others;
    url-others = λ url id db. (
      λ j. ap (read c.decode) (get-set_other urls sessions url j (c.of_text id) db refl),
      λ j. ap text_of (get-set_other urls variants url j (c.of_text id) db refl),
      λ j. ap (read c.decode_asset) (get-set_other urls assets url j (c.of_text id) db refl),
    );
    variant-others = λ hash out db. (
      λ j. ap (read c.decode) (get-set_other variants sessions hash j (c.of_text out) db refl),
      λ j. ap text_of (get-set_other variants urls hash j (c.of_text out) db refl),
      λ j. ap (read c.decode_asset) (get-set_other variants assets hash j (c.of_text out) db refl),
    );
    asset-others = λ hash a db. (
      λ j. ap (read c.decode) (get-set_other assets sessions hash j (c.encode_asset a) db refl),
      λ j. ap text_of (get-set_other assets urls hash j (c.encode_asset a) db refl),
      λ j. ap text_of (get-set_other assets variants hash j (c.encode_asset a) db refl),
    );
    deleted-others = λ id db. (
      λ j. ap text_of (get-del_other sessions urls id j db refl),
      λ j. ap text_of (get-del_other sessions variants id j db refl),
      λ j. ap (read c.decode_asset) (get-del_other sessions assets id j db refl),
    );
  }
