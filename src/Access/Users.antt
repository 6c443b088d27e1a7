-- ===== src/Access/Users.antt =====
-- What the configured users are, and what it takes to be let through (lib/security/auth.py).
use Prim.Native.Char.{code}
use mathlib.Core.Path.{subst}
use wifi_validation_framewor.Prelude.{
  String, ◌≡◌, refl, ◌∙◌, ap, inl, inr, Bool, true, false, not, ◌&&◌, Option, none, some, some-eq,
  List, [], ◌∷◌, map, arith, Bool-cases, ◌is◌, length, All, contains, distinct, is_space, is_blank,
  lstrip, rstrip, strip, ok, raised, ok-eq,
}
use wifi_validation_framewor.Domain.Json.{entry, Json, Items}
use wifi_validation_framewor.Access.Auth.{
  Role, UserRecord, AuthManager, AuthHost, Checked, both, new_manager, role_of, text_value,
  text_values, projects_value, role_text, mixes_wildcard, make_user, user_of, add_user, manager_of,
  users_of, read_users, text_or, from_env,
}

lstrip-blank : (s : String) → is_blank (lstrip s) ≡ is_blank s
unfolding is_blank lstrip
lstrip-blank String.[] = refl
lstrip-blank (String.◌∷◌ c s) = ground (arith, lstrip-blank s)

rstrip-blank : (s : String) → is_blank (rstrip s) ≡ is_blank s
unfolding is_blank rstrip
rstrip-blank String.[] = refl
rstrip-blank (String.◌∷◌ c s) = elim (Bool-cases (is_space (code c) && is_blank s)) [
  | inl e ↦ rw e
  | inr e ↦ rw e (ap (λ b. is_space (code c) && b) (rstrip-blank s) ∙ e)
]

strip-blank : (s : String) → is_blank (strip s) ≡ is_blank s
unfolding strip
strip-blank s = rstrip-blank (lstrip s) ∙ lstrip-blank s

-- A user that the service may rely on.
pub record IsConfigured (u : UserRecord) : Type 0 where
  pub named : is_blank u.username ≡ false
  pub hashed : is_blank u.password_hash ≡ false
  pub scoped : All (λ p. is_blank p ≡ false) u.projects
  pub alone : contains u.projects "*" ≡ true → length u.projects ≡ 1

text_value-some : (o : Option Json) (s : String) → text_value o ≡ some s → is_blank s ≡ false
unfolding text_value
text_value-some none s h = cc
text_value-some (some (Json.str t)) s h = ground arith
text_value-some (some Json.null) s h = cc
text_value-some (some (Json.bool b)) s h = cc
text_value-some (some (Json.int n)) s h = cc
text_value-some (some (Json.float x)) s h = cc
text_value-some (some (Json.arr xs)) s h = cc
text_value-some (some (Json.obj fs)) s h = cc

abbrev AllNamed : List String → Type 0
AllNamed = All (λ p. is_blank p ≡ false)

join-named :
    (o : Option String) (r : Option (List String)) (l : List String)
    → ((s : String) → o ≡ some s → is_blank s ≡ false)
    → ((k : List String) → r ≡ some k → AllNamed k)
    → both o r ≡ some l
    → AllNamed l
join-named none r l f g h = cc h
join-named (some s) none l f g h = cc h
join-named (some s) (some k) l f g h = subst AllNamed (some-eq h) (f s refl, g k refl)

text_values-named : (items : Items) (l : List String) → text_values items ≡ some l → AllNamed l
unfolding text_values
text_values-named Items.no_items l h = subst AllNamed (some-eq h) tt
text_values-named (Items.item j rest) l h =
    join-named (text_value (some j)) (text_values rest) l (text_value-some (some j))
      (λ k. text_values-named rest k) h

projects_value-named : (o : Option Json) (l : List String) → projects_value o ≡ some l → AllNamed l
unfolding projects_value is_blank
projects_value-named none l h = subst AllNamed (some-eq h) (refl, tt)
projects_value-named (some (Json.arr items)) l h = text_values-named items l h
projects_value-named (some (Json.str t)) l h = cc h
projects_value-named (some Json.null) l h = cc h
projects_value-named (some (Json.bool b)) l h = cc h
projects_value-named (some (Json.int n)) l h = cc h
projects_value-named (some (Json.float x)) l h = cc h
projects_value-named (some (Json.obj fs)) l h = cc h

strip-named : (l : List String) → AllNamed l → AllNamed (map strip l)
strip-named [] h = tt
strip-named (s ∷ l) h = (strip-blank s ∙ h.0, strip-named l h.1)

make_user-IsConfigured :
    (username hash : Option String) (role : Option Role) (projects : Option (List String))
    {u : UserRecord}
    → ((s : String) → username ≡ some s → is_blank s ≡ false)
    → ((s : String) → hash ≡ some s → is_blank s ≡ false)
    → ((l : List String) → projects ≡ some l → AllNamed l)
    → make_user username hash role projects ≡ ok u
    → IsConfigured u
unfolding make_user
make_user-IsConfigured none hash role projects f g k h = cc h
make_user-IsConfigured (some n) none role projects f g k h = cc h
make_user-IsConfigured (some n) (some p) none projects f g k h = cc h
make_user-IsConfigured (some n) (some p) (some r) none f g k h = cc h
make_user-IsConfigured (some n) (some p) (some r) (some l) f g k h =
    elim (Bool-cases (mixes_wildcard (map strip l))) [
      | inl e ↦ cc (rw e at h)
      | inr e ↦ subst IsConfigured (ok-eq (rw e at h)) (record {
        named = strip-blank n ∙ f n refl;
        hashed = strip-blank p ∙ g p refl;
        scoped = strip-named l (k l refl);
        alone = λ w. ground (arith, e, w);
      })
    ]

user_of-IsConfigured :
    (host : AuthHost) (j : Json) {u : UserRecord} → user_of host j ≡ ok u → IsConfigured u
unfolding user_of
user_of-IsConfigured host (Json.obj item) h =
    make_user-IsConfigured (text_value (entry "username" item))
      (text_value (entry "password_hash" item)) (role_of (role_text host (entry "role" item)))
      (projects_value (entry "projects" item)) (text_value-some (entry "username" item))
      (text_value-some (entry "password_hash" item)) (projects_value-named (entry "projects" item))
      h
user_of-IsConfigured host (Json.str t) h = cc h
user_of-IsConfigured host Json.null h = cc h
user_of-IsConfigured host (Json.bool b) h = cc h
user_of-IsConfigured host (Json.int n) h = cc h
user_of-IsConfigured host (Json.float x) h = cc h
user_of-IsConfigured host (Json.arr items) h = cc h

add_user-All :
    (r : Checked UserRecord) (rs : Checked (List UserRecord)) {us : List UserRecord}
    → ((u : UserRecord) → r ≡ ok u → IsConfigured u)
    → ((l : List UserRecord) → rs ≡ ok l → All IsConfigured l)
    → add_user r rs ≡ ok us
    → All IsConfigured us
add_user-All (ok u) (ok l) f g h = subst (All IsConfigured) (ok-eq h) (f u refl, g l refl)
add_user-All (ok u) (raised e) f g h = cc h
add_user-All (raised e) rs f g h = cc h

users_of-All :
    (host : AuthHost) (items : Items) (us : List UserRecord)
    → users_of host items ≡ ok us
    → All IsConfigured us
unfolding users_of
users_of-All host Items.no_items us h = subst (All IsConfigured) (ok-eq h) tt
users_of-All host (Items.item j rest) us h =
    add_user-All (user_of host j) (users_of host rest) (λ u. user_of-IsConfigured host j)
      (λ l. users_of-All host rest l) h

-- The users of a manager that the environment configures.
pub record AreConfigured (m : AuthManager) : Type 0 where
  pub unique : distinct (map (λ (u : UserRecord). u.username) m.users) ≡ true
  pub users : All IsConfigured m.users

new_manager-AreConfigured :
    (us : List UserRecord) (required : Bool) {m : AuthManager}
    → All IsConfigured us
    → new_manager us required ≡ ok m
    → AreConfigured m
unfolding new_manager
new_manager-AreConfigured us required all h =
    elim (Bool-cases (distinct (map (λ (u : UserRecord). u.username) us))) [
      | inl e ↦ subst AreConfigured (ok-eq (rw e at h)) (record { unique = e; users = all })
      | inr e ↦ cc (rw e at h)
    ]

manager_of-AreConfigured :
    (required : Bool) (r : Checked (List UserRecord)) {m : AuthManager}
    → ((us : List UserRecord) → r ≡ ok us → All IsConfigured us)
    → manager_of required r ≡ ok m
    → AreConfigured m
manager_of-AreConfigured required (raised e) f h = cc h
manager_of-AreConfigured required (ok us) f h = new_manager-AreConfigured us required (f us refl) h

read_users-AreConfigured :
    (host : AuthHost) (required : Bool) (o : Option Json) {m : AuthManager}
    → read_users host required o ≡ ok m
    → AreConfigured m
unfolding read_users
read_users-AreConfigured host required none h = cc h
read_users-AreConfigured host required (some (Json.arr items)) h =
    manager_of-AreConfigured required (users_of host items) (users_of-All host items) h
read_users-AreConfigured host required (some (Json.str t)) h = cc h
read_users-AreConfigured host required (some Json.null) h = cc h
read_users-AreConfigured host required (some (Json.bool b)) h = cc h
read_users-AreConfigured host required (some (Json.int n)) h = cc h
read_users-AreConfigured host required (some (Json.float x)) h = cc h
read_users-AreConfigured host required (some (Json.obj fs)) h = cc h

-- A manager that `from_env` returns has users of different names, each with a name and a password hash
-- that are not blank, with projects that are not blank, and with no other project beside the wildcard.
pub from_env-AreConfigured :
    (host : AuthHost) (required_text users_json : Option String) {m : AuthManager}
    → from_env host required_text users_json ≡ ok m
    → AreConfigured m
unfolding from_env
from_env-AreConfigured host required_text users_json h =
    elim (Bool-cases (strip (text_or "" users_json) is "")) [
      | inl e ↦ new_manager-AreConfigured [] _ tt (rw e at h)
      | inr e ↦
          read_users-AreConfigured host
            (not (contains ("0" ∷ "false" ∷ "no" ∷ []) (host.lower (text_or "0" required_text))))
            (host.loads (strip (text_or "" users_json))) (rw e at h)
    ]
