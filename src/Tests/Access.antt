-- ===== src/Tests/Access.antt =====
-- Decisions on concrete callers.
use nebari_landing.Base.{◌≡◌, refl, true, false, some, Memᴰ}
use nebari_landing.Access.{
  can_access_policy, can_access_service, principal_can_access, principal_from_claims, is_admin,
}
use nebari_landing.Tests.Samples.{web_service, staff_claims, guest_claims}

staff_reads_test : can_access_service web_service true (some staff_claims) ≡ true
unfolding can_access_service can_access_policy nebari_landing.Access.has_required_groups
    nebari_landing.Base.any nebari_landing.Access.group_matches nebari_landing.Base.trim_prefix
staff_reads_test = refl

guest_refused_test : can_access_service web_service true (some guest_claims) ≡ false
unfolding can_access_service can_access_policy nebari_landing.Access.has_required_groups
    nebari_landing.Base.any
guest_refused_test = refl
