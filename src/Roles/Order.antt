-- ===== src/Roles/Order.antt =====
-- The order of the roles.
use serwebs.Prelude.{◌≡◌, ◌↔◌, true, ◌==◌, eq_iff, ◌⊎◌, arith}
use serwebs.Roles.{User, require_role}

-- The check for "admin" lets exactly the admins through; that for "user" exactly admins and users;
-- that for "viewer" exactly the three roles. So no role that is not one of the three passes any.
pub require_role_iff :
    (user : User)
    → ((require_role "admin" user ≡ true) ↔ (user.role ≡ "admin"))
      × ((require_role "user" user ≡ true) ↔ ((user.role ≡ "admin") ⊎ (user.role ≡ "user")))
      × ((require_role "viewer" user ≡ true)
          ↔ ((user.role ≡ "admin") ⊎ ((user.role ≡ "user") ⊎ (user.role ≡ "viewer"))))
unfolding require_role
require_role_iff user = (
  (λ h. ground (arith, admin), λ e. ground (arith, admin)),
  (λ h. ground (arith, admin, plain), λ e. ground (arith, admin, plain)),
  (λ h. ground (arith, admin, plain, viewer), λ e. ground (arith, admin, plain, viewer)),
)
  where
    admin : ((user.role == "admin") ≡ true) ↔ (user.role ≡ "admin")
    admin = eq_iff user.role "admin"

    plain : ((user.role == "user") ≡ true) ↔ (user.role ≡ "user")
    plain = eq_iff user.role "user"

    viewer : ((user.role == "viewer") ≡ true) ↔ (user.role ≡ "viewer")
    viewer = eq_iff user.role "viewer"
