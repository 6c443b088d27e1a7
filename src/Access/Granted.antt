-- ===== src/Access/Granted.antt =====
-- What it takes to be let through (lib/security/auth.py).
use wifi_validation_framewor.Prelude.{
  ℕ, ◌≤◌, String, ◌≡◌, refl, ◌⊎◌, inl, inr, true, Option, none, some, some-eq, List, [], ◌∷◌, arith,
  Bool-cases, ◌is◌, if◌then◌else◌, length, contains, All, ok, eq_iff,
}
use wifi_validation_framewor.Access.Auth.{
  Role, UserRecord, AuthenticatedUser, AuthManager, AuthHost, from_env, find_user, verified,
  authenticate, is_project, can_access_project, authorize,
}
use wifi_validation_framewor.Access.Users.{IsConfigured, AreConfigured, from_env-AreConfigured}

-- How much an action asks for, and how much a role gives.
pub level : String → Option ℕ
level action =
    if action is "view"
    then some 0
    else if action is "execute"
    then some 1
    else if action is "admin"
    then some 2
    else if action is "owner"
    then some 3
    else none

abbrev pub rank : Role → ℕ
rank Role.viewer = 0
rank Role.operator = 1
rank Role.admin = 2
rank Role.owner = 3

-- The action is known and within the role.
pub record IsWithin (action : String) (role : Role) : Type 0 where
  pub needed : ℕ
  pub known : level action ≡ some needed
  pub enough : needed ≤ rank role

authorize-IsWithin :
    (user : AuthenticatedUser) (action : String) (project : Option String)
    → authorize user action project ≡ true
    → IsWithin action user.role
unfolding authorize level
authorize-IsWithin user action project h = elim (Bool-cases (action is "view")) [
  | inl e ↦ record { needed = 0; known = rw e; enough = omega arith }
  | inr a ↦ elim (Bool-cases (action is "execute")) [
    | inl e ↦ record { needed = 1; known = rw (a, e); enough = ground (arith, a, e) }
    | inr b ↦ elim (Bool-cases (action is "admin")) [
      | inl e ↦ record { needed = 2; known = rw (a, b, e); enough = ground (arith, a, b, e) }
      | inr c ↦ elim (Bool-cases (action is "owner")) [
        | inl e ↦ record {
          needed = 3;
          known = rw (a, b, c, e);
          enough = ground (arith, a, b, c, e);
        }
        | inr d ↦ absurd (ground (arith, a, b, c, d))
      ]
    ]
  ]
]

authorize-access :
    (user : AuthenticatedUser) (action : String) (project : Option String)
    → authorize user action project ≡ true
    → can_access_project user project ≡ true
unfolding authorize
authorize-access user action project h = ground arith

find_user-IsConfigured :
    (name : String) (us : List UserRecord) {u : UserRecord}
    → All IsConfigured us
    → find_user name us ≡ some u
    → IsConfigured u × (u.username ≡ name)
unfolding find_user
find_user-IsConfigured name [] all h = cc h
find_user-IsConfigured name (x ∷ us) {u} all h = elim (Bool-cases (x.username is name)) [
  | inl e ↦
      let found : x ≡ u = some-eq (rw e at h) in rw (← found) (all.0, (eq_iff x.username name).0 e)
  | inr e ↦ find_user-IsConfigured name us all.1 (rw e at h)
]

access_cases :
    (u : UserRecord) (project : Option String)
    → IsConfigured u
    → can_access_project
        (record { username = u.username; role = u.role; projects = u.projects })
        project
      ≡ true
    → ((contains u.projects "*" ≡ true) × (length u.projects ≡ 1))
      ⊎ (is_project u.projects project ≡ true)
unfolding can_access_project
access_cases u project c h = elim (Bool-cases (contains u.projects "*")) [
  | inl e ↦ inl (e, c.alone e)
  | inr e ↦ inr (rw e at h)
]

-- Who a successful login stands for.
pub record IsGranted (host : AuthHost) (m : AuthManager) (name password action : String)
    (project : Option String) : Type 0 where
  pub user : UserRecord
  pub found : find_user name m.users ≡ some user
  pub checked : host.check_password_hash user.password_hash password ≡ true
  pub configured : IsConfigured user
  pub within : IsWithin action user.role
  pub project_of :
      ((contains user.projects "*" ≡ true) × (length user.projects ≡ 1))
      ⊎ (is_project user.projects project ≡ true)

module _ (host : AuthHost) (m : AuthManager) (name password action : String)
    (project : Option String) where
  granted :
      (o : Option UserRecord) {a : AuthenticatedUser}
      → find_user name m.users ≡ o
      → AreConfigured m
      → verified host password o ≡ some a
      → authorize a action project ≡ true
      → IsGranted host m name password action project
  unfolding verified
  granted none e c h k = cc h
  granted (some u) {a} e c h k =
      elim (Bool-cases (host.check_password_hash u.password_hash password)) [
        | inr wrong ↦ cc (rw wrong at h)
        | inl right ↦
            let same : record { username = u.username; role = u.role; projects = u.projects } ≡ a =
              some-eq (rw right at h) in
            let k' = rw (← same) at k in
            let configured = (find_user-IsConfigured name m.users c.users e).0 in
            record {
              user = u;
              found = e;
              checked = right;
              configured = configured;
              within = authorize-IsWithin _ action project k';
              project_of = access_cases u project configured (authorize-access _ action project k');
            }
      ]

  -- Where the environment configured the users, a name and password that log in and may then do an
  -- action on a project are those of a configured user whose password hash was checked, whose role
  -- reaches the action, which is one of the four known, and whose projects are the wildcard alone or
  -- hold that project.
  pub access-IsGranted :
      (required_text users_json : Option String) {a : AuthenticatedUser}
      → from_env host required_text users_json ≡ ok m
      → authenticate host name password m ≡ some a
      → authorize a action project ≡ true
      → IsGranted host m name password action project
  unfolding authenticate
  access-IsGranted required_text users_json configured logged_in allowed =
      granted (find_user name m.users) refl
        (from_env-AreConfigured host required_text users_json configured) logged_in allowed
