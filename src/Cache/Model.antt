-- ===== src/Cache/Model.antt =====
-- core/models/cache.py. Times are native numbers.
use romcloud.Base.{ℕ, String, Bool, true, false, not, ◌&&◌, Option}

pub data CacheStatus : Type 0 where
  transferring complete failed incomplete : CacheStatus

pub record CacheEntry : Type 0 where
  pub game_id : String
  pub cache_path : String
  pub status : CacheStatus
  pub cached_at : ℕ
  pub last_accessed : ℕ
  pub size_bytes : ℕ
  pub is_pinned : Bool

unfoldable pub is_complete : CacheEntry → Bool
is_complete e = elim e.status [ complete ↦ true | _ ↦ false ]

unfoldable pub is_evictable : CacheEntry → Bool
unfolding is_complete
is_evictable e = is_complete e && not e.is_pinned

-- `CacheEntry.create`
abbrev pub create : ℕ → String → String → CacheEntry
create now game_id cache_path = record {
  game_id = game_id;
  cache_path = cache_path;
  status = transferring;
  cached_at = now;
  last_accessed = now;
  size_bytes = 0;
  is_pinned = false;
}

pub record CacheMember : Type 0 where
  pub game_id : String
  pub relative_path : String
  pub expected_size : Option ℕ
  pub size_bytes : ℕ
  pub is_primary : Bool

pub record CachePolicy : Type 0 where
  pub max_size_bytes : ℕ
  pub min_free_bytes : ℕ
