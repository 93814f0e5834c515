-- ===== src/Server/SessionRegistry/Find.antt =====
-- `find` of server/src/session_registry.cpp, case by case.
use clear_space.Prelude.{◌≡◌, ap, Bool, true, false, none, some, ◌==◌, if◌then◌else◌, ◌∙◌}
use clear_space.Prelude.Map.{Map, erase, find-erase, find-assign}
use clear_space.Prelude.Map.{find as map_find}
use clear_space.Core.Types.{ClientId}
use clear_space.Server.SessionRegistry.{SessionRegistry, add, find}

pub find_absent :
    (is_alive : ClientId → Bool) (r : SessionRegistry) (id : ClientId)
    → map_find r.sessions id ≡ none
    → find is_alive r id ≡ (none, r)
unfolding find
find_absent is_alive r id e = rw (e, find)

pub find_alive :
    (is_alive : ClientId → Bool) (r : SessionRegistry) (id session : ClientId)
    → map_find r.sessions id ≡ some session
    → is_alive session ≡ true
    → find is_alive r id ≡ (some session, r)
unfolding find
find_alive is_alive r id session e y = rw (e, y, find)

pub find_expired :
    (is_alive : ClientId → Bool) (r : SessionRegistry) (id session : ClientId)
    → map_find r.sessions id ≡ some session
    → is_alive session ≡ false
    → find is_alive r id ≡ (none, record { sessions = erase r.sessions id })
unfolding find
find_expired is_alive r id session e y = rw (e, y, find)

pub erase_same :
    (m : Map ClientId) (id c : ClientId) → (id == c) ≡ true → map_find (erase m id) c ≡ none
erase_same m id c e = find-erase m id c ∙ ap (λ b. if b then none else map_find m c) e

pub erase_other :
    (m : Map ClientId) (id c : ClientId)
    → (id == c) ≡ false
    → map_find (erase m id) c ≡ map_find m c
erase_other m id c e = find-erase m id c ∙ ap (λ b. if b then none else map_find m c) e

pub find-add :
    (r : SessionRegistry) (id session c : ClientId)
    → map_find (add r id session).sessions c
      ≡ (if id == c then some session else map_find r.sessions c)
unfolding add
find-add r id session c = find-assign r.sessions id session c
