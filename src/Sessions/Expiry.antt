-- ===== src/Sessions/Expiry.antt =====
-- When a session expires, and that an access renews it.
use now_sdk_ext_core.Common.{
  ℕ, zero, suc, ◌+◌, ◌-◌, [], Option, none, some, String, ◌≡◌, ◌⊎◌, inl, inr, refl, arith, or_else,
  if◌then◌else◌, Map, lookup, lookup-insert, eq_refl, Bool-cases, Option-cases,
}
use now_sdk_ext_core.Sessions.{
  ActiveSession, CreateSessionOptions, Registry, set_ttl, create_session, is_past, is_expired,
  destroy_session, touch, get_session,
}
use now_sdk_ext_core.Sessions.Laws.{
  IsValid, Accessed, get_session-Accessed, get_session_found, destroy_session_gone,
}

elapsed-add : (t d : ℕ) → t + d - t ≡ d
elapsed-add t d = omega arith

lookup-set_ttl_self :
    (id : String) (ttl : Option ℕ) (ttls : Map ℕ) (d : ℕ)
    → lookup id ttls ≡ none
    → is_past (lookup id (set_ttl id ttl ttls)) d ≡ is_past ttl d
lookup-set_ttl_self id none ttls d h = rw h
lookup-set_ttl_self id (some zero) ttls d h = rw h
lookup-set_ttl_self id (some (suc n)) ttls d h = rw lookup-insert (rw (eq_refl id))

module _ {V : Type 0} where
  created : String → ℕ → CreateSessionOptions V → ActiveSession V
  created id t options = record {
    id = id;
    type = options.type;
    instance_alias = options.instance_alias;
    created_at = t;
    last_accessed_at = t;
    resources = or_else options.resources [];
  }

  created-lookup :
      (id : String) (t : ℕ) (options : CreateSessionOptions V) (r : Registry V)
      → lookup id (create_session id t options r).sessions ≡ some (created id t options)
  unfolding create_session created
  created-lookup id t options r = rw lookup-insert (rw (eq_refl id))

  created-is_expired :
      (id : String) (t d : ℕ) (options : CreateSessionOptions V) (r : Registry V)
      → IsValid r
      → lookup id r.sessions ≡ none
      → is_expired (t + d) (create_session id t options r).ttls (created id t options)
        ≡ is_past options.ttl_ms d
  unfolding create_session created is_expired
  created-is_expired id t d options r v fresh =
      rw elapsed-add (lookup-set_ttl_self id options.ttl_ms r.ttls d (v.has_session id fresh))

  -- In a valid registry, a session created at `t` under an id that had none is found at `t + d`,
  -- with what it was created with and `t + d` as its last access, unless its time to live is set
  -- and `d` passes it.
  pub get_session-create_session :
      (id : String) (t d : ℕ) (options : CreateSessionOptions V) (r : Registry V)
      → IsValid r
      → lookup id r.sessions ≡ none
      → (get_session id (t + d) (create_session id t options r)).1 ≡ (
          if is_past options.ttl_ms d
          then none
          else some (record {
            id = id;
            type = options.type;
            instance_alias = options.instance_alias;
            created_at = t;
            last_accessed_at = t + d;
            resources = or_else options.resources [];
          }))
  get_session-create_session id t d options r v fresh =
      rw
        (get_session_found id (t + d) (create_session id t options r) (created id t options)
          (created-lookup id t options r))
        (rw (created-is_expired id t d options r v fresh) (unfold created in refl))

  -- After an access at `t`, the time that counts for expiry is the time since `t`.
  renewed_expiry :
      (id : String) (t d : ℕ) (r : Registry V) (s : ActiveSession V) (a : Accessed id t r s)
      → a.old.id ≡ id
      → is_expired (t + d) (get_session id t r).0.ttls s ≡ is_past (lookup id r.ttls) d
  unfolding is_expired
  renewed_expiry id t d r s a own = rw a.state (rw a.touched (rw own (rw elapsed-add)))

  -- In a valid registry, an access that succeeds renews the session: `d` later it is found again,
  -- unless its time to live is set and `d` alone passes it, however long ago it was created.
  pub get_session-renews :
      (id : String) (t d : ℕ) (r : Registry V) (s : ActiveSession V)
      → IsValid r
      → (get_session id t r).1 ≡ some s
      → (get_session id (t + d) (get_session id t r).0).1
        ≡ (if is_past (lookup id r.ttls) d then none else some (touch (t + d) s))
  get_session-renews id t d r s v h =
      let a = get_session-Accessed id t r s h in
      let there : lookup id (get_session id t r).0.sessions ≡ some s =
        rw a.state (rw lookup-insert (rw (eq_refl id))) in
      let renewed : is_expired (t + d) (get_session id t r).0.ttls s
          ≡ is_past (lookup id r.ttls) d =
        renewed_expiry id t d r s a (v.own_id id a.old a.there) in
      rw (get_session_found id (t + d) (get_session id t r).0 s there) (rw renewed)

  get_session_absent :
      (id : String) (now : ℕ) (r : Registry V)
      → lookup id r.sessions ≡ none
      → (get_session id now r).1 ≡ none
  unfolding get_session
  get_session_absent id now r e = rw (e, get_session)

  -- The two ways to find nothing: there is no session, or it is destroyed.
  get_session-none :
      (id : String) (now : ℕ) (r : Registry V)
      → (get_session id now r).1 ≡ none
      → ((lookup id r.sessions ≡ none) × ((get_session id now r).0 ≡ r))
        ⊎ ((get_session id now r).0 ≡ (destroy_session id r).0)
  unfolding get_session
  get_session-none id now r h = elim (Option-cases (lookup id r.sessions)) [
    | inl e ↦ inl (e, rw (e, get_session))
    | inr (s, e) ↦ elim (Bool-cases (is_expired now r.ttls s)) [
      | inl past ↦ inr (rw (e, get_session) (rw past))
      | inr live ↦ absurd (cc (rw live at (rw (e, get_session) at h)))
    ]
  ]

  -- In a valid registry, an access that finds nothing leaves no trace of the session: it is gone
  -- from both maps, and every later access, at any time, finds nothing.
  pub get_session_expired :
      (id : String) (t later : ℕ) (r : Registry V)
      → IsValid r
      → (get_session id t r).1 ≡ none
      → (lookup id (get_session id t r).0.sessions ≡ none)
        × (lookup id (get_session id t r).0.ttls ≡ none)
        × ((get_session id later (get_session id t r).0).1 ≡ none)
  get_session_expired id t later r v h = elim (get_session-none id t r h) [
    | inl (e, same) ↦ rw same (e, v.has_session id e, get_session_absent id later r e)
    | inr same ↦
        let (gone, no_ttl) = destroy_session_gone id r in
        rw same (gone, no_ttl, get_session_absent id later _ gone)
  ]
