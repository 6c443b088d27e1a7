-- ===== src/Access/Auth.antt =====
-- Users, roles and projects: lib/security/auth.py. `str`, the case of texts, the parser of JSON and
-- the check of a password (werkzeug) are parameters.
use wifi_validation_framewor.Prelude.{
  String, Bool, true, false, not, ◌&&◌, ◌||◌, Option, none, some, List, [], ◌∷◌, map, ◌==◌, ◌is◌,
  if◌then◌else◌, length, contains, distinct, is_blank, strip, Result, ok, raised,
}
use wifi_validation_framewor.Domain.Json.{Json, Items, entry}

pub data Role : Type 0 where
  owner admin operator viewer : Role

pub record UserRecord : Type 0 where
  pub username : String
  pub password_hash : String
  pub role : Role
  pub projects : List String

pub record AuthenticatedUser : Type 0 where
  pub username : String
  pub role : Role
  pub projects : List String

pub record AuthManager : Type 0 where
  pub users : List UserRecord
  pub required : Bool

pub record AuthHost : Type 0 where
  pub str_of : Json → String
  pub upper : String → String
  pub lower : String → String
  pub loads : String → Option Json
  pub check_password_hash : String → String → Bool

abbrev pub Checked : Type 0 → Type 0
Checked = Result String

-- `AuthManager(records, required=required)`.
unfoldable pub new_manager : List UserRecord → Bool → Checked AuthManager
new_manager records required =
    if distinct (map (λ (u : UserRecord). u.username) records)
    then ok (record { users = records; required = required })
    else raised "configured usernames must be unique"

-- `Role(text)`.
unfoldable pub role_of : String → Option Role
role_of text =
    if text is "OWNER"
    then some Role.owner
    else if text is "ADMIN"
    then some Role.admin
    else if text is "OPERATOR"
    then some Role.operator
    else if text is "VIEWER"
    then some Role.viewer
    else none

-- A text that is not blank.
unfoldable pub text_value : Option Json → Option String
text_value (some (Json.str s)) = if is_blank s then none else some s
text_value _ = none

abbrev pub both : Option String → Option (List String) → Option (List String)
both (some s) (some l) = some (s ∷ l)
both _ _ = none

-- A list of texts that are not blank.
unfoldable pub text_values : Items → Option (List String)
text_values Items.no_items = some []
text_values (Items.item j rest) = both (text_value (some j)) (text_values rest)

unfoldable pub projects_value : Option Json → Option (List String)
unfolding text_values
projects_value none = some ("*" ∷ [])
projects_value (some (Json.arr items)) = text_values items
projects_value _ = none

-- `str(item.get("role", "")).upper()`.
abbrev pub role_text : AuthHost → Option Json → String
role_text host none = host.upper ""
role_text host (some j) = host.upper (host.str_of j)

abbrev pub mixes_wildcard : List String → Bool
mixes_wildcard projects = contains projects "*" && not (length projects == 1)

-- The end of the loop's body in `from_env`, from the parts that were read.
unfoldable pub make_user :
    Option String → Option String → Option Role → Option (List String) → Checked UserRecord
make_user none password_hash role projects = raised "configured user has no valid username"
make_user (some username) none role projects = raised "configured user has no password hash"
make_user (some username) (some password_hash) none projects =
    raised "configured user has an unsupported role"
make_user (some username) (some password_hash) (some role) none =
    raised "projects must be an array of non-empty strings"
make_user (some username) (some password_hash) (some role) (some projects) =
    if mixes_wildcard (map strip projects)
    then raised "wildcard project scope cannot be combined with named projects"
    else ok (record {
      username = strip username;
      password_hash = strip password_hash;
      role = role;
      projects = map strip projects;
    })

unfoldable pub user_of : AuthHost → Json → Checked UserRecord
unfolding make_user entry role_of text_value projects_value strip is_blank
user_of host (Json.obj item) =
    make_user (text_value (entry "username" item)) (text_value (entry "password_hash" item))
      (role_of (role_text host (entry "role" item))) (projects_value (entry "projects" item))
user_of host _ = raised "configured user must be an object"

abbrev pub add_user : Checked UserRecord → Checked (List UserRecord) → Checked (List UserRecord)
add_user (ok u) (ok us) = ok (u ∷ us)
add_user (ok u) (raised e) = raised e
add_user (raised e) _ = raised e

unfoldable pub users_of : AuthHost → Items → Checked (List UserRecord)
unfolding user_of
users_of host Items.no_items = ok []
users_of host (Items.item j rest) = add_user (user_of host j) (users_of host rest)

abbrev pub manager_of : Bool → Checked (List UserRecord) → Checked AuthManager
manager_of required (ok users) = new_manager users required
manager_of required (raised e) = raised e

unfoldable pub read_users : AuthHost → Bool → Option Json → Checked AuthManager
unfolding users_of new_manager
read_users host required none = raised "NETREGRESS_AUTH_USERS_JSON is not valid JSON"
read_users host required (some (Json.arr items)) = manager_of required (users_of host items)
read_users host required _ = raised "NETREGRESS_AUTH_USERS_JSON must be an array"

abbrev pub text_or : String → Option String → String
text_or default none = default
text_or default (some s) = s

-- The two environment variables are NETREGRESS_AUTH_REQUIRED and NETREGRESS_AUTH_USERS_JSON.
unfoldable pub from_env : AuthHost → Option String → Option String → Checked AuthManager
unfolding read_users
from_env host required_text users_json =
    let required =
      not (contains ("0" ∷ "false" ∷ "no" ∷ []) (host.lower (text_or "0" required_text))) in
    let raw = strip (text_or "" users_json) in
    if raw is "" then new_manager [] required else read_users host required (host.loads raw)

unfoldable pub require_configured : AuthManager → Checked (Unit {0})
require_configured m =
    if m.required && length m.users == 0
    then raised "authentication is enabled but no users are configured"
    else ok tt

-- `self._users.get(username)`.
unfoldable pub find_user : String → List UserRecord → Option UserRecord
find_user username [] = none
find_user username (u ∷ us) = if u.username is username then some u else find_user username us

unfoldable pub verified : AuthHost → String → Option UserRecord → Option AuthenticatedUser
verified host password none = none
verified host password (some u) =
    if host.check_password_hash u.password_hash password
    then some (record { username = u.username; role = u.role; projects = u.projects })
    else none

unfoldable pub authenticate : AuthHost → String → String → AuthManager → Option AuthenticatedUser
unfolding find_user verified
authenticate host username password m = verified host password (find_user username m.users)

abbrev pub is_project : List String → Option String → Bool
is_project projects none = false
is_project projects (some p) = contains projects p

unfoldable pub can_access_project : AuthenticatedUser → Option String → Bool
can_access_project user project_id =
    contains user.projects "*" || is_project user.projects project_id

abbrev pub is_operator : Role → Bool
is_operator Role.viewer = false
is_operator _ = true

abbrev pub is_admin : Role → Bool
is_admin Role.owner = true
is_admin Role.admin = true
is_admin _ = false

abbrev pub is_owner : Role → Bool
is_owner Role.owner = true
is_owner _ = false

-- The dictionary of actions, where one that it does not hold is refused.
unfoldable pub authorize : AuthenticatedUser → String → Option String → Bool
unfolding can_access_project
authorize user action project_id =
    if not (can_access_project user project_id)
    then false
    else if action is "view"
    then true
    else if action is "execute"
    then is_operator user.role
    else if action is "admin"
    then is_admin user.role
    else if action is "owner"
    then is_owner user.role
    else false
