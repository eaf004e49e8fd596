-- ===== src/Permission/Visible.antt =====
-- visibleAppIds: the apps that a list shows (backend/src/permissions/permission.service.ts).
pub mod Agrees
use nocode_app.Base.{
  ℕ, suc, ◌+◌, Text, codes, text_eq, opt_text_eq, has, add_id, to_set, present, Bool, true, false,
  not, ◌&&◌, ◌||◌, Option, none, some, List, [], ◌∷◌, ◌++◌, map, if◌then◌else◌, length, filter, any,
  find, Failure, Result, ok, err, forbidden, not_found, no_fuel, ◌>>=◌, ◌>>◌, require,
}
use nocode_app.Schema.{
  User, Group, App, AppPermission, Tables, find_user, find_app, system_admin, viewer, target_all,
  target_user, target_group, scope_owner, scope_org,
}
use nocode_app.Permission.Rights.{my_group_ids}

-- `groupIds.length ? groupIds : ['__none__']`
abbrev pub or_no_group : List Text → List Text
or_no_group [] = codes "__none__" ∷ []
or_no_group (g ∷ gs) = g ∷ gs

abbrev pub in_list : List Text → Option Text → Bool
in_list ids none = false
in_list ids (some id) = has ids id

-- The `where` of the query in visibleAppIds.
unfoldable pub shows : Text → List Text → AppPermission → Bool
shows user_id group_ids p =
    p.can_view
    && (text_eq p.target_type target_all
        || (text_eq p.target_type target_user && opt_text_eq p.target_id user_id)
        || (text_eq p.target_type target_group && in_list (or_no_group group_ids) p.target_id))

-- visibleAppIds: `none` is every app
unfoldable pub visible_app_ids : Tables → Text → Text → Option (List Text)
visible_app_ids db user_id role =
    if text_eq role system_admin
    then none
    else some (
        to_set [] (
          map (λ (a : App). a.id) (filter (λ a. text_eq a.created_by user_id) db.apps)
          ++ map (λ (p : AppPermission). p.app_id)
              (filter (shows user_id (my_group_ids db user_id)) db.permissions)))
