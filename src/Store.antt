-- ===== src/Store.antt =====
-- internal/store/store.go: MemoryStore. The maps of sessions hold pointers, so a session that a
-- handler still holds after CreateSession or UpdateSession is the one in the map: the objects are
-- kept on a heap, and a map from the identifier to the pointer is beside it. Each method runs
-- under the lock, so it is one step.
pub mod Views
pub mod Redis
pub mod Contract
pub mod Alike
mod Tests
use ytmpt.Common.{ℕ, ◌+◌, Bool, true, false, Option, none, some, List, [], ◌∷◌, if◌then◌else◌, ◌==◌}
use ytmpt.Common.Text.{Text, text_eq}
use ytmpt.Common.Dict.{Dict, lookup, insert, delete, delete_where}
use ytmpt.Models.{ConversionSession, ConversionState}

-- A pointer to a session.
abbrev pub Ref : Type 0
Ref = ℕ

-- The state of an asset: a state's text, the handlers' "expired", or the empty text.
pub data AssetState : Type 0 where
  blank expired : AssetState
  of_state : ConversionState → AssetState

pub record Asset : Type 0 where
  pub source_path : Text
  pub state : AssetState

pub record MemoryStore : Type 0 where
  pub sessions : Dict Ref
  pub url_to_id : Dict Text
  pub variant_to_out : Dict Text
  pub asset_map : Dict Asset
  pub next : Ref
  pub at : Ref → ConversionSession

-- A new object.
unfoldable pub allocate : ConversionSession → MemoryStore → Ref × MemoryStore
allocate s m = (m.next, record m { next = m.next + 1; at = λ r. if r == m.next then s else m.at r })

-- A write through a pointer.
unfoldable pub assign : Ref → (ConversionSession → ConversionSession) → MemoryStore → MemoryStore
assign p f m = record m { at = λ r. if r == p then f (m.at p) else m.at r }

-- The methods. `now` is time.Now; a `false` or `none` is an error that is returned.
unfoldable pub create_session : ℕ → Ref → MemoryStore → Bool × MemoryStore
create_session now p m = elim (lookup (m.at p).id m.sessions) [
  | some _ ↦ (false, m)
  | none ↦ (
    true,
    (let stamped = assign p (λ s. record s { created_at = now; updated_at = now }) m in
        record stamped { sessions = insert (m.at p).id p m.sessions }),
  )
]

unfoldable pub update_session : ℕ → Ref → MemoryStore → Bool × MemoryStore
update_session now p m = elim (lookup (m.at p).id m.sessions) [
  | none ↦ (false, m)
  | some _ ↦ (
    true,
    (let stamped = assign p (λ s. record s { updated_at = now }) m in
        record stamped { sessions = insert (m.at p).id p m.sessions }),
  )
]

-- A pointer to a copy of the session.
unfoldable pub get_session : Text → MemoryStore → Option Ref × MemoryStore
get_session id m = elim (lookup id m.sessions) [
  | none ↦ (none, m)
  | some p ↦ (let (copy, m') = allocate (m.at p) m in (some copy, m'))
]

unfoldable pub delete_session : Text → MemoryStore → MemoryStore
delete_session id m = record m {
  sessions = delete id m.sessions;
  url_to_id = delete_where (λ sid. text_eq sid id) m.url_to_id;
}

unfoldable pub find_by_url : Text → MemoryStore → Option Text
find_by_url url m = lookup url m.url_to_id

unfoldable pub set_url_map : Text → Text → MemoryStore → MemoryStore
set_url_map url id m = record m { url_to_id = insert url id m.url_to_id }

unfoldable pub set_variant : Text → Text → MemoryStore → MemoryStore
set_variant hash out m = record m { variant_to_out = insert hash out m.variant_to_out }

unfoldable pub get_variant : Text → MemoryStore → Option Text
get_variant hash m = lookup hash m.variant_to_out

unfoldable pub set_asset : Text → Text → AssetState → MemoryStore → MemoryStore
set_asset hash path state m = record m {
  asset_map = insert hash (record { source_path = path; state = state }) m.asset_map;
}

unfoldable pub get_asset : Text → MemoryStore → Option Asset
get_asset hash m = lookup hash m.asset_map

unfoldable pub new_memory_store : ConversionSession → MemoryStore
new_memory_store zero_value = record {
  sessions = [];
  url_to_id = [];
  variant_to_out = [];
  asset_map = [];
  next = 0;
  at = λ r. zero_value;
}
