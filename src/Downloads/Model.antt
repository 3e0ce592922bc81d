-- ===== src/Downloads/Model.antt =====
-- core/models/download.py. Times are native numbers.
use romcloud.Base.{ℕ, String, Bool, true, false, Eq, Option}

pub data DownloadOrigin : Type 0 where
  manual pinned selected : DownloadOrigin

pub data DownloadState : Type 0 where
  queued running paused interrupted verifying failed cancelled complete : DownloadState

state_dec : Discrete DownloadState
state_dec = hlevel

instance unfoldable pub state_eq : Eq DownloadState
unfolding state_dec
state_eq = record { dec = state_dec }

-- `ACTIVE_DOWNLOAD_STATES`, and the states of the unique index of `download_items`
unfoldable pub is_active : DownloadState → Bool
is_active failed = false
is_active cancelled = false
is_active complete = false
is_active _ = true

pub record DownloadItem : Type 0 where
  pub id : String
  pub batch_id : Option String
  pub game_id : Option String
  pub game_title : String
  pub system : String
  pub origin : DownloadOrigin
  pub state : DownloadState
  pub queue_seq : ℕ
  pub worker_instance_id : Option String
  pub bytes_total : ℕ
  pub bytes_present : ℕ
  pub error_code : Option String
  pub error_message : Option String
  pub created_at : ℕ
  pub updated_at : ℕ
  pub started_at : Option ℕ
  pub finished_at : Option ℕ
