-- ===== src/Sessions.antt =====
-- src/comm/http/ActiveSessionRegistry.ts: the registry of workflow sessions. The clock's reading
-- (`Date.now()`, in milliseconds) and the id that `randomUUID()` gives are arguments. A session
-- stands in the registry's map, and a change of the object is a change of the map's entry.
pub mod Laws
pub mod Expiry
pub mod Resources
mod Tests
use text.Mathlib.Text.{◌==◌}
use now_sdk_ext_core.Common.{
  ℕ, zero, suc, ◌-◌, Bool, true, false, List, [], ◌∷◌, map, Option, none, some, String, or_else,
  is_some, if◌then◌else◌, ltb, filter, Map, lookup, insert, delete,
}

pub record ActiveSession (V : Type 0) : Type 0 where
  pub id : String
  pub type : String
  pub instance_alias : String
  pub created_at : ℕ
  pub last_accessed_at : ℕ
  pub resources : Map V

pub record CreateSessionOptions (V : Type 0) : Type 0 where
  pub type : String
  pub instance_alias : String
  pub resources : Option (Map V)
  pub ttl_ms : Option ℕ

pub record Registry (V : Type 0) : Type 0 where
  pub sessions : Map (ActiveSession V)
  pub ttls : Map ℕ

pub record SessionFilter : Type 0 where
  pub type : Option String
  pub instance_alias : Option String

-- `if (filter?.type)`: a missing and an empty text select everything.
abbrev pub selects : Option String → String → Bool
selects none s = true
selects (some String.[]) s = true
selects (some (String.◌∷◌ c t)) s = s == String.◌∷◌ c t

-- `if (options.ttlMs)`: zero is no limit.
abbrev pub set_ttl : String → Option ℕ → Map ℕ → Map ℕ
set_ttl id none ttls = ttls
set_ttl id (some zero) ttls = ttls
set_ttl id (some (suc ttl)) ttls = insert id (suc ttl) ttls

-- `(now - lastAccessedAt) > ttl`; a clock that went back expires nothing, and neither does the
-- subtraction that stops at 0.
abbrev pub is_past : Option ℕ → ℕ → Bool
is_past none elapsed = false
is_past (some zero) elapsed = false
is_past (some (suc ttl)) elapsed = ltb (suc ttl) elapsed

module _ {V : Type 0} where
  abbrev pub empty : Registry V
  empty = record { sessions = []; ttls = [] }

  unfoldable pub create_session : String → ℕ → CreateSessionOptions V → Registry V → Registry V
  create_session id now options r = record {
    sessions =
        insert id
          (record {
            id = id;
            type = options.type;
            instance_alias = options.instance_alias;
            created_at = now;
            last_accessed_at = now;
            resources = or_else options.resources [];
          })
          r.sessions;
    ttls = set_ttl id options.ttl_ms r.ttls;
  }

  unfoldable pub is_expired : ℕ → Map ℕ → ActiveSession V → Bool
  is_expired now ttls session = is_past (lookup session.id ttls) (now - session.last_accessed_at)

  unfoldable pub destroy_session : String → Registry V → Registry V × Bool
  destroy_session id r = (
    record { sessions = delete id r.sessions; ttls = delete id r.ttls },
    is_some (lookup id r.sessions),
  )

  abbrev pub touch : ℕ → ActiveSession V → ActiveSession V
  touch now session = record session { last_accessed_at = now }

  unfoldable pub get_session : String → ℕ → Registry V → Registry V × Option (ActiveSession V)
  get_session id now r = elim (lookup id r.sessions) [
    | none ↦ (r, none)
    | some session ↦ if is_expired now r.ttls session then ((destroy_session id r).0, none) else (
      record r { sessions = insert id (touch now session) r.sessions },
      some (touch now session),
    )
  ]

  unfoldable pub get_resource : String → String → ℕ → Registry V → Registry V × Option V
  get_resource id key now r =
      let (r', found) = get_session id now r in
      elim found [ none ↦ (r', none) | some session ↦ (r', lookup key session.resources) ]

  unfoldable pub set_resource : String → String → V → ℕ → Registry V → Registry V × Bool
  set_resource id key value now r =
      let (r', found) = get_session id now r in
      elim found [
        | none ↦ (r', false)
        | some session ↦ (
          record r' {
            sessions =
                insert id (record session { resources = insert key value session.resources })
                  r'.sessions;
          },
          true,
        )
      ]

  -- The loop that evicts: over the entries that the map had at the start, each of which is still
  -- there when its turn comes.
  unfoldable pub evict : ℕ → Map (ActiveSession V) → Registry V → Registry V
  evict now [] r = r
  evict now ((id, session) ∷ entries) r =
      evict now entries (if is_expired now r.ttls session then (destroy_session id r).0 else r)

  unfoldable pub list_sessions :
      SessionFilter → ℕ → Registry V → Registry V × List (ActiveSession V)
  list_sessions f now r =
      let r' = evict now r.sessions r in
      (
        r',
        filter (λ s. selects f.instance_alias s.instance_alias)
            (filter (λ s. selects f.type s.type) (map (λ e. e.1) r'.sessions)),
      )
