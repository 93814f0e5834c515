-- ===== src/Server/SessionRegistry.antt =====
-- server/src/session_registry.cpp: the sessions by the ids of their clients, as weak pointers. A session
-- is named by the id it was made with; `is_alive` says which sessions still exist. Each method holds the
-- lock and is one step.
pub mod Find
use clear_space.Prelude.{Bool, Option, none, some, if◌then◌else◌}
use clear_space.Prelude.Map.{Map, assign, erase}
use clear_space.Prelude.Map.{find as map_find}
use clear_space.Core.Types.{ClientId}

pub record SessionRegistry : Type 0 where
  pub sessions : Map ClientId

pub add : SessionRegistry → ClientId → ClientId → SessionRegistry
add r id session = record r { sessions = assign r.sessions id session }

abbrev pub remove : SessionRegistry → ClientId → SessionRegistry
remove r id = record r { sessions = erase r.sessions id }

-- An entry of a session that is gone is erased.
pub find : (ClientId → Bool) → SessionRegistry → ClientId → Option ClientId × SessionRegistry
find is_alive r id = elim (map_find r.sessions id) [
  | none ↦ (none, r)
  | some session ↦
      if is_alive session
      then (some session, r)
      else (none, record r { sessions = erase r.sessions id })
]
