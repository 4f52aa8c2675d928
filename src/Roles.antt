-- ===== src/Roles.antt =====
-- The roles of serwebs/auth.py: their order, and how each backend maps what it knows of a user to
-- a role. A role is a text, as in the program, which takes it from configuration and tokens.
pub mod Order
pub mod Mapping
mod Tests
use serwebs.Prelude.{
  ℕ, String, Bool, true, false, ◌==◌, ◌||◌, Option, none, some, List, [], ◌∷◌, leb, ltb,
  if◌then◌else◌,
}

pub record User : Type 0 where
  pub username : String
  pub role : String

-- `_ROLE_HIERARCHY.get(role, 0)`
unfoldable pub level : String → ℕ
level role =
    if role == "admin" then 3 else if role == "user" then 2 else if role == "viewer" then 1 else 0

-- `require_role(role)`: false is the 403.
unfoldable pub require_role : String → User → Bool
unfolding level
require_role role user = if ltb (level user.role) (level role) then false else true

-- `g in groups`
unfoldable pub is_member : String → List String → Bool
is_member g [] = false
is_member g (x ∷ xs) = if x == g then true else is_member g xs

-- The loop over the configured groups, which ends at the first that the user is in.
unfoldable pub any_member : List String → List String → Bool
unfolding is_member
any_member [] groups = false
any_member (g ∷ gs) groups = if is_member g groups then true else any_member gs groups

-- LDAP and OIDC: from the groups of the user.
unfoldable pub group_role : String → List String → List String → List String → String
group_role default_role admin_groups viewer_groups groups =
    let role = if any_member admin_groups groups then "admin" else default_role in
    if role == "admin" then role else if any_member viewer_groups groups then "viewer" else role

-- RADIUS: the loop over Filter-Id. The admin filter ends it, the viewer filter does not.
unfoldable pub filter_role : String → String → String → List String → String
filter_role admin_filter viewer_filter role [] = role
filter_role admin_filter viewer_filter role (fid ∷ fids) =
    let rest =
      filter_role admin_filter viewer_filter (if fid == viewer_filter then "viewer" else role)
        fids in
    if fid == admin_filter then "admin" else rest

-- An argument of a TACACS+ authorization: `priv-lvl=` with a number, with none, or another one.
-- (The protocol's levels are 0 to 15, so the number is not negative.)
pub data Argument : Type 0 where
  priv_lvl : ℕ → Argument
  bad_priv_lvl other : Argument

-- TACACS+: the first `priv-lvl=` decides. One that is no number raises, and the role stays.
unfoldable pub priv_role : ℕ → ℕ → String → List Argument → String
priv_role admin_lvl viewer_lvl role [] = role
priv_role admin_lvl viewer_lvl role (other ∷ args) = priv_role admin_lvl viewer_lvl role args
priv_role admin_lvl viewer_lvl role (bad_priv_lvl ∷ args) = role
priv_role admin_lvl viewer_lvl role (priv_lvl n ∷ args) =
    if leb admin_lvl n then "admin" else if leb n viewer_lvl then "viewer" else role
