-- ===== src/Roles/Mapping.antt =====
-- The roles that the backends give.
use serwebs.Prelude.{
  ◌≡◌, refl, String, ◌==◌, ◌||◌, eq_iff, inl, inr, arith, if◌then◌else◌, List, [], ◌∷◌, Bool-cases,
}
use serwebs.Roles.{is_member, any_member, group_role, filter_role}

-- A user in an admin group is an admin, whatever viewer groups there are. Else a default of
-- "admin" stands; and else a user in a viewer group is a viewer, and all others have the default.
pub group_role_lem :
    (default_role : String) (admin_groups viewer_groups groups : List String)
    → group_role default_role admin_groups viewer_groups groups ≡ (
        if any_member admin_groups groups || default_role == "admin"
        then "admin"
        else if any_member viewer_groups groups
        then "viewer"
        else default_role)
unfolding group_role
group_role_lem default_role admin_groups viewer_groups groups =
    elim (Bool-cases (any_member admin_groups groups)) [
      | inl e ↦ rw e
      | inr e ↦ rw e (ground (arith, eq_iff default_role "admin"))
    ]

-- RADIUS: the admin filter among the attributes makes an admin, wherever it stands; else the viewer
-- filter makes a viewer; else the role is the default.
pub filter_role_lem :
    (admin_filter viewer_filter default_role : String) (fids : List String)
    → filter_role admin_filter viewer_filter default_role fids ≡ (
        if is_member admin_filter fids
        then "admin"
        else if is_member viewer_filter fids
        then "viewer"
        else default_role)
unfolding filter_role is_member
filter_role_lem a v d [] = refl
filter_role_lem a v d (fid ∷ fids) =
    ground (arith, filter_role_lem a v (if fid == v then "viewer" else d) fids)
