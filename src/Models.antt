-- ===== src/Models.antt =====
-- internal/models/models.go: the states, the session and the messages of the API. The states are
-- the constants of ConversionState; the program writes no other text of that type.
use ytmpt.Common.{ℕ, Bool, true, false, List}
use ytmpt.Common.Text.{Text, lit}
use ytmpt.Common.Int.{ℤ}

pub data ConversionState : Type 0 where
  preparing fetching created downloading downloaded queued converting completed failed :
      ConversionState

unfoldable pub state_eq : ConversionState → ConversionState → Bool
state_eq preparing preparing = true
state_eq fetching fetching = true
state_eq created created = true
state_eq downloading downloading = true
state_eq downloaded downloaded = true
state_eq queued queued = true
state_eq converting converting = true
state_eq completed completed = true
state_eq failed failed = true
state_eq _ _ = false

-- string(state)
abbrev pub state_text : ConversionState → Text
state_text preparing = lit "preparing"
state_text fetching = lit "fetching_metadata"
state_text created = lit "created"
state_text downloading = lit "downloading"
state_text downloaded = lit "downloaded"
state_text queued = lit "queued_for_conversion"
state_text converting = lit "converting"
state_text completed = lit "completed"
state_text failed = lit "failed"

pub record MetaLite : Type 0 where
  pub title : Text
  pub duration : ℤ
  pub thumbnail : Text

pub record ConversionSession : Type 0 where
  pub id : Text
  pub url : Text
  pub asset_hash : Text
  pub variant_hash : Text
  pub state : ConversionState
  pub created_at : ℕ
  pub updated_at : ℕ
  pub source_path : Text
  pub output_path : Text
  pub quality : Text
  pub error : Text
  pub meta : MetaLite

pub record PrepareRequest : Type 0 where
  pub url : Text

pub record PrepareResponse : Type 0 where
  pub conversion_id : Text
  pub status : Text
  pub metadata : MetaLite
  pub message : Text

pub record ConvertRequest : Type 0 where
  pub conversion_id : Text
  pub quality : Text
  pub start_time : Text
  pub end_time : Text

pub record ConvertAcceptedResponse : Type 0 where
  pub conversion_id : Text
  pub status : Text
  pub queue_position : ℕ
  pub message : Text

pub record FlowStep : Type 0 where
  pub name : Text
  pub done : Bool
  pub current : Bool

pub record StatusResponse : Type 0 where
  pub conversion_id : Text
  pub status : Text
  pub download_url : Text
  pub queue_position : ℕ
  pub error : Text
  pub status_text : Text
  pub flow : List FlowStep
