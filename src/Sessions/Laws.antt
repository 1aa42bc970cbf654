-- ===== src/Sessions/Laws.antt =====
-- What a caller of the session registry can rely on, operation by operation.
use text.Mathlib.Text.{◌==◌}
use now_sdk_ext_core.Common.{
  ℕ, zero, suc, false, Option, none, some, String, ◌≡◌, inl, inr, refl, sym, arith, if◌then◌else◌,
  Map, lookup, insert, lookup-insert, lookup-delete, eq_refl, eq_iff, Bool-cases, Option-cases,
}
use now_sdk_ext_core.Sessions.{
  ActiveSession, CreateSessionOptions, Registry, set_ttl, create_session, is_expired,
  destroy_session, touch, get_session, set_resource,
}

lookup-set_ttl :
    (id k : String) (ttl : Option ℕ) (ttls : Map ℕ)
    → lookup k ttls ≡ none
    → (id == k) ≡ false
    → lookup k (set_ttl id ttl ttls) ≡ none
lookup-set_ttl id k none ttls h ne = h
lookup-set_ttl id k (some zero) ttls h ne = h
lookup-set_ttl id k (some (suc n)) ttls h ne = rw lookup-insert (rw ne h)

module _ {V : Type 0} where
  -- A session stands under its own id, and only sessions that are there have a time to live.
  pub record IsValid (r : Registry V) : Type 0 where
    pub own_id : (id : String) (s : ActiveSession V) → lookup id r.sessions ≡ some s → s.id ≡ id
    pub has_session : (id : String) → lookup id r.sessions ≡ none → lookup id r.ttls ≡ none

  pub create_session-IsValid :
      (id : String) (now : ℕ) (options : CreateSessionOptions V) (r : Registry V)
      → IsValid r
      → IsValid (create_session id now options r)
  unfolding create_session
  create_session-IsValid id now options r v = record {
    own_id = λ k s. rw lookup-insert (ground (arith, eq_iff id k, v.own_id k s));
    has_session = λ k.
        rw lookup-insert
          (ground (arith, eq_iff id k, v.has_session k, lookup-set_ttl id k options.ttl_ms r.ttls));
  }

  pub destroy_session-IsValid :
      (id : String) (r : Registry V) → IsValid r → IsValid (destroy_session id r).0
  unfolding destroy_session
  destroy_session-IsValid id r v = record {
    own_id = λ k s. rw lookup-delete (ground (arith, v.own_id k s));
    has_session = λ k. rw lookup-delete (rw lookup-delete (ground (arith, v.has_session k)));
  }

  -- A change of a session that is there keeps the registry valid if it keeps its id.
  insert-IsValid :
      (id : String) (s s' : ActiveSession V) (r : Registry V)
      → lookup id r.sessions ≡ some s
      → s'.id ≡ s.id
      → IsValid r
      → IsValid (record r { sessions = insert id s' r.sessions })
  insert-IsValid id s s' r there same v = record {
    own_id = λ k t. rw lookup-insert (ground (arith, eq_iff id k, v.own_id k t, v.own_id id s));
    has_session = λ k. rw lookup-insert (ground (arith, v.has_session k));
  }

  pub get_session-IsValid :
      (id : String) (now : ℕ) (r : Registry V) → IsValid r → IsValid (get_session id now r).0
  unfolding get_session
  get_session-IsValid id now r v = elim (Option-cases (lookup id r.sessions)) [
    | inl e ↦ rw (e, get_session) v
    | inr (s, e) ↦ elim (Bool-cases (is_expired now r.ttls s)) [
      | inl past ↦ rw (e, get_session) (rw past (destroy_session-IsValid id r v))
      | inr live ↦ rw (e, get_session) (rw live (insert-IsValid id s (touch now s) r e refl v))
    ]
  ]

  -- What a successful access has done.
  pub record Accessed (id : String) (now : ℕ) (r : Registry V) (s : ActiveSession V) : Type 0 where
    pub old : ActiveSession V
    pub there : lookup id r.sessions ≡ some old
    pub live : is_expired now r.ttls old ≡ false
    pub touched : s ≡ touch now old
    pub state : (get_session id now r).0 ≡ record r { sessions = insert id s r.sessions }

  pub get_session-Accessed :
      (id : String) (now : ℕ) (r : Registry V) (s : ActiveSession V)
      → (get_session id now r).1 ≡ some s
      → Accessed id now r s
  unfolding get_session
  get_session-Accessed id now r s h = elim (Option-cases (lookup id r.sessions)) [
    | inl e ↦ absurd (cc (rw (e, get_session) at h))
    | inr (t, e) ↦ elim (Bool-cases (is_expired now r.ttls t)) [
      | inl past ↦ absurd (cc (rw past at (rw (e, get_session) at h)))
      | inr live ↦
          let same : touch now t ≡ s = cc (rw live at (rw (e, get_session) at h)) in
          record {
            old = t;
            there = e;
            live = live;
            touched = sym same;
            state = rw (e, get_session) (rw live (rw same refl));
          }
    ]
  ]

  pub set_resource-IsValid :
      (id key : String) (value : V) (now : ℕ) (r : Registry V)
      → IsValid r
      → IsValid (set_resource id key value now r).0
  unfolding set_resource
  set_resource-IsValid id key value now r v = elim (Option-cases (get_session id now r).1) [
    | inl e ↦ rw (e, set_resource) (get_session-IsValid id now r v)
    | inr (s, e) ↦
        let a = get_session-Accessed id now r s e in
        let there : lookup id (get_session id now r).0.sessions ≡ some s =
          rw a.state (rw lookup-insert (rw (eq_refl id))) in
        rw (e, set_resource) (insert-IsValid id s _ _ there refl (get_session-IsValid id now r v))
  ]

  -- The answer of an access to a session that is there.
  pub get_session_found :
      (id : String) (now : ℕ) (r : Registry V) (s : ActiveSession V)
      → lookup id r.sessions ≡ some s
      → (get_session id now r).1 ≡ (if is_expired now r.ttls s then none else some (touch now s))
  unfolding get_session
  get_session_found id now r s e = rw (e, get_session) (ground arith)

  pub destroy_session_gone :
      (id : String) (r : Registry V)
      → (lookup id (destroy_session id r).0.sessions ≡ none)
        × (lookup id (destroy_session id r).0.ttls ≡ none)
  unfolding destroy_session
  destroy_session_gone id r =
      (rw lookup-delete (rw (eq_refl id)), rw lookup-delete (rw (eq_refl id)))
