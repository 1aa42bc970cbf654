-- ===== src/Sessions/Tests.antt =====
-- Runs of src/comm/http/ActiveSessionRegistry.ts.
use now_sdk_ext_core.Common.{ℕ, [], true, none, some, ◌≡◌, refl, lookup, insert}
use now_sdk_ext_core.Sessions.{
  ActiveSession, CreateSessionOptions, Registry, empty, create_session, get_session,
}
use now_sdk_ext_core.Sessions.Resources.{set_resource-get_resource}
use now_sdk_ext_core.Sessions.{set_resource, get_resource, is_expired}
use now_sdk_ext_core.Sessions.Laws.{IsValid, create_session-IsValid}
use now_sdk_ext_core.Sessions.Expiry.{
  get_session-create_session, get_session-renews, get_session_expired,
}

abbrev for_an_hour : CreateSessionOptions ℕ
for_an_hour = record {
  type = "ATF";
  instance_alias = "dev";
  resources = none;
  ttl_ms = some 3600000;
}

empty-IsValid : IsValid (empty {V = ℕ})
unfolding lookup
empty-IsValid = record { own_id = λ k s h. absurd (cc); has_session = λ k h. refl }

abbrev opened : Registry ℕ
opened = create_session "s1" 1000 for_an_hour empty

opened-IsValid : IsValid opened
opened-IsValid = create_session-IsValid "s1" 1000 for_an_hour empty empty-IsValid

abbrev session_at : ℕ → ActiveSession ℕ
session_at t = record {
  id = "s1";
  type = "ATF";
  instance_alias = "dev";
  created_at = 1000;
  last_accessed_at = t;
  resources = [];
}

get_session-create_session_example : (get_session "s1" 6000 opened).1 ≡ some (session_at 6000)
unfolding lookup
get_session-create_session_example =
    get_session-create_session "s1" 1000 5000 for_an_hour empty empty-IsValid refl

opened_found : (get_session "s1" 2000 opened).1 ≡ some (session_at 2000)
opened_found =
    get_session-create_session "s1" 1000 1000 for_an_hour empty empty-IsValid
      (unfold lookup in refl)

get_session-renews_example :
    (get_session "s1" 3602000 (get_session "s1" 2000 opened).0).1 ≡ some (session_at 3602000)
unfolding lookup create_session insert
get_session-renews_example =
    get_session-renews "s1" 2000 3600000 opened (session_at 2000) opened-IsValid opened_found

opened_late : (get_session "s1" 9000000 opened).1 ≡ none
opened_late =
    get_session-create_session "s1" 1000 8999000 for_an_hour empty empty-IsValid
      (unfold lookup in refl)

get_session_expired_example :
    (lookup "s1" (get_session "s1" 9000000 opened).0.sessions ≡ none)
    × (lookup "s1" (get_session "s1" 9000000 opened).0.ttls ≡ none)
    × ((get_session "s1" 2000 (get_session "s1" 9000000 opened).0).1 ≡ none)
get_session_expired_example =
    get_session_expired "s1" 9000000 2000 opened opened-IsValid opened_late

opened_set : (set_resource "s1" "run" 7 2000 opened).1 ≡ true
unfolding set_resource get_session create_session lookup is_expired insert
opened_set = refl

set_resource-get_resource_example :
    (get_resource "s1" "run" 5000 (set_resource "s1" "run" 7 2000 opened).0).1 ≡ some 7
unfolding create_session lookup insert
set_resource-get_resource_example =
    set_resource-get_resource "s1" "run" 7 2000 3000 opened opened-IsValid opened_set
