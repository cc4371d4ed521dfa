-- ===== src/Store/Tests.antt =====
-- A client that keeps what it is given, and the theorems of RedisStore over it.
use ytmpt.Common.{
  ℕ, ◌≡◌, refl, Bool, true, false, Option, none, some, List, [], ◌∷◌, if◌then◌else◌, arith, All,
}
use ytmpt.Common.Text.{Text, text_eq, text_eq_iff}
use ytmpt.Common.Int.{pos}
use ytmpt.Common.Dict.{Dict, lookup, insert, delete, lookup-insert, lookup-delete}
use ytmpt.Models.{ConversionSession, created, failed}
use ytmpt.Store.{MemoryStore, Asset}
use ytmpt.Store.Views.{IsValid}
use ytmpt.Store.Contract.{Operation, change, remove, IsChange, IsKeyed, run}
use ytmpt.Store.Redis
use ytmpt.Store.Redis.{Got, value, nil, failure, Client, session_key}
use ytmpt.Store.Redis.Laws.{IsLawful}
use ytmpt.Store.Alike.{get_copy, memory_sessions, redis_sessions, memory-redis}

data Payload : Type 0 where
  session : ConversionSession → Payload
  asset : Asset → Payload
  text : Text → Payload

abbrev decode : Payload → Option ConversionSession
decode (session s) = some s
decode _ = none

abbrev decode_asset : Payload → Option Asset
decode_asset (asset a) = some a
decode_asset _ = none

abbrev to_text : Payload → Text
to_text (text t) = t
to_text _ = []

abbrev got : Option Payload → Got Payload
got none = nil
got (some b) = value b

abbrev kept : Client
kept = record {
  State = Dict Payload;
  Bytes = Payload;
  get = λ k db. got (lookup k db);
  set = λ k b db. (true, insert k b db);
  del = λ k db. (true, delete k db);
  encode = λ s. some (session s);
  decode = decode;
  encode_asset = asset;
  decode_asset = decode_asset;
  of_text = text;
  to_text = to_text;
}

-- Every session, and every asset, can be encoded.
abbrev Every : ConversionSession → Type 0
Every s = Unit

abbrev Whole : Asset → Type 0
Whole a = Unit

kept-IsLawful : IsLawful Every Whole kept
kept-IsLawful = record {
  get-set = λ k j b db. ground (arith, lookup-insert k j b db);
  get-del = λ k j db. ground (arith, lookup-delete k j db);
  decode-encode = λ s h. (session s, refl, refl);
  decode_asset-encode_asset = λ a h. refl;
  to_text-of_text = λ t. refl;
}

abbrev song : ConversionSession
song = record {
  id = 1 ∷ [];
  url = 7 ∷ [];
  asset_hash = [];
  variant_hash = [];
  state = created;
  created_at = 0;
  updated_at = 0;
  source_path = [];
  output_path = [];
  quality = [];
  error = [];
  meta = record { title = []; duration = pos 60; thumbnail = [] };
}

abbrev memory : MemoryStore
memory = record {
  sessions = (1 ∷ [], 0) ∷ [];
  url_to_id = [];
  variant_to_out = [];
  asset_map = [];
  next = 1;
  at = λ r. song;
}

memory-IsValid : IsValid memory
unfolding lookup text_eq
memory-IsValid = record {
  allocated = λ id p e. ground (arith, text_eq_iff (1 ∷ []) id);
  keyed = λ id p e. ground (arith, text_eq_iff (1 ∷ []) id);
}

abbrev server : Dict Payload
server = (session_key (1 ∷ []), session song) ∷ []

keyed : IsKeyed Every (λ id. get_copy id memory)
unfolding ytmpt.Store.get_session ytmpt.Store.allocate lookup text_eq
keyed id s e = (ground (arith, text_eq_iff (1 ∷ []) id), tt)

same : (j : Text) → get_copy j memory ≡ (redis_sessions kept).get j server
unfolding ytmpt.Store.get_session ytmpt.Store.allocate Redis.get_session session_key lookup text_eq
    ytmpt.Common.Text.lit
same j = ground arith

-- A path and a failure are written through one pointer, and then the session is deleted.
abbrev operations : List Operation
operations =
    change 5 (1 ∷ [])
      ((λ s. record s { source_path = 8 ∷ [] }) ∷ (λ s. record s { state = failed }) ∷ [])
    ∷ remove (1 ∷ [])
    ∷ []

operations-All : All (IsChange Every) operations
operations-All = (((λ s. (refl, λ h. tt)), ((λ s. (refl, λ h. tt)), tt)), (tt, tt))

memory-redis_example :
    get_copy (1 ∷ []) (run memory_sessions operations memory)
    ≡ (redis_sessions kept).get (1 ∷ []) (run (redis_sessions kept) operations server)
memory-redis_example =
    memory-redis Every Whole kept kept-IsLawful operations memory server memory-IsValid keyed
      operations-All same (1 ∷ [])
