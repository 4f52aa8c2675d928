-- ===== src/Roles/Tests.antt =====
-- The roles at concrete users and groups.
use serwebs.Prelude.{◌≡◌, refl, false}
use serwebs.Roles.{User, require_role, level}

abbrev eve : User
eve = record { username = "eve"; role = "viewer" }

viewer_is_refused : require_role "user" eve ≡ false
unfolding require_role level
viewer_is_refused = refl
