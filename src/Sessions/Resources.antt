-- ===== src/Sessions/Resources.antt =====
-- The resources of a session of src/comm/http/ActiveSessionRegistry.ts, over several accesses.
use now_sdk_ext_core.Common.{
  ℕ, ◌+◌, ◌-◌, true, Option, none, some, String, ◌≡◌, inl, inr, refl, arith, if◌then◌else◌, lookup,
  insert, lookup-insert, eq_refl, Option-cases, Bool-cases,
}
use now_sdk_ext_core.Sessions.{
  ActiveSession, Registry, is_past, is_expired, get_session, get_resource, set_resource,
}
use now_sdk_ext_core.Sessions.Laws.{IsValid, Accessed, get_session-Accessed, get_session_found}

module _ {V : Type 0} where
  resource_of : String → Option (ActiveSession V) → Option V
  resource_of key none = none
  resource_of key (some session) = lookup key session.resources

  get_resource-get_session :
      (id key : String) (now : ℕ) (r : Registry V)
      → (get_resource id key now r).1 ≡ resource_of key (get_session id now r).1
  unfolding get_resource resource_of
  get_resource-get_session id key now r = elim (Option-cases (get_session id now r).1) [
    | inl e ↦ rw (e, get_resource, resource_of) refl
    | inr (s, e) ↦ rw (e, get_resource, resource_of) refl
  ]

  abbrev with_resource : String → V → ActiveSession V → ActiveSession V
  with_resource key value s = record s { resources = insert key value s.resources }

  -- After an access at `t`, a change of the session's resources leaves its expiry as it is.
  changed-is_expired :
      (id key : String) (value : V) (t d : ℕ) (r : Registry V) (s : ActiveSession V)
      → IsValid r
      → Accessed id t r s
      → is_expired (t + d) (get_session id t r).0.ttls (with_resource key value s)
        ≡ is_past (lookup id r.ttls) d
  unfolding is_expired
  changed-is_expired id key value t d r s v a =
      let own : a.old.id ≡ id = v.own_id id a.old a.there in
      let elapsed : (x : ℕ) → t + x - t ≡ x = λ x. omega arith in
      rw a.state (rw a.touched (rw own (rw elapsed refl)))

  -- In a valid registry, a resource that was set at `t` is what an access at `t + d` gets for its
  -- key, unless the session's time to live is set and `d` passes it, when there is none.
  pub set_resource-get_resource :
      (id key : String) (value : V) (t d : ℕ) (r : Registry V)
      → IsValid r
      → (set_resource id key value t r).1 ≡ true
      → (get_resource id key (t + d) (set_resource id key value t r).0).1
        ≡ (if is_past (lookup id r.ttls) d then none else some value)
  unfolding set_resource resource_of
  set_resource-get_resource id key value t d r v h = elim (Option-cases (get_session id t r).1) [
    | inl e ↦ absurd (cc (rw (e, set_resource) at h))
    | inr (s, e) ↦
        let a = get_session-Accessed id t r s e in
        let r' = (get_session id t r).0 in
        let s' = with_resource key value s in
        let r'' : Registry V = record r' { sessions = insert id s' r'.sessions } in
        let there : lookup id r''.sessions ≡ some s' = rw lookup-insert (rw (eq_refl id)) in
        let kept : lookup key s'.resources ≡ some value = rw lookup-insert (rw (eq_refl key)) in
        let found = get_session_found id (t + d) r'' s' there in
        rw (e, set_resource)
          (rw (get_resource-get_session id key (t + d) r'') (
            rw found (
              rw (changed-is_expired id key value t d r s v a)
                (elim (Bool-cases (is_past (lookup id r.ttls) d)) [
                  | inl past ↦ rw past refl
                  | inr live ↦ rw live kept
                ]))))
  ]
