-- ===== src/Examples/AccessExamples.antt =====
-- The idempotency store, the login limiter and the users on concrete inputs.
use wifi_validation_framewor.Prelude.{
  ℕ, String, ◌≡◌, refl, true, ◌&&◌, some, List, [], ◌∷◌, ◌is◌, is_blank, is_space, strip, ok,
  raised, arith,
}
use wifi_validation_framewor.Domain.Json.{
  Json, entry, no_fields, field, no_items, item, str, arr, obj,
}
use wifi_validation_framewor.Access.Idempotency.{
  assertion, IdempotencyRecord, IdempotencyStore, put,
}
use wifi_validation_framewor.Access.Replay.{PutRequest, put-expired}
use wifi_validation_framewor.Access.Window.{decisions, permitted, decisions-permitted}
use wifi_validation_framewor.Access.Auth.{
  Role, UserRecord, AuthenticatedUser, AuthManager, AuthHost, new_manager, from_env, authenticate,
  authorize, user_of, users_of, make_user, read_users, role_of, text_value, text_values,
  projects_value, find_user, verified, can_access_project,
}
use wifi_validation_framewor.Access.Granted.{IsGranted, access-IsGranted}

abbrev old_response : IdempotencyRecord
old_response = record {
  scope = "alice:runs";
  key = "k1";
  request_sha256 = "aa";
  response = str "first";
  status_code = 202;
  expires_at = 60000000;
}

abbrev small_store : IdempotencyStore
small_store = record { ttl_seconds = 60; rows = old_response ∷ [] }

abbrev other_put : PutRequest
other_put = record {
  now = 1010;
  later = 1011;
  scope = "alice:runs";
  key = "k2";
  request_sha256 = "cc";
  response = str "third";
  status_code = 200;
}

put-expired_example :
    put 60000000 60000001 "alice:runs" "k1" "aa" (str "first") 202 small_store
    ≡ (raised assertion, small_store)
put-expired_example =
    put-expired 60000000 60000001 "alice:runs" "k1" "aa" (str "first") 202 small_store refl
      (λ _. refl, tt)

-- Three attempts within a window of ten seconds, two of them allowed; a later one is allowed again.
abbrev login_calls : List (String × ℕ)
login_calls = ("bob", 0) ∷ ("bob", 1) ∷ ("bob", 5) ∷ ("eve", 6) ∷ ("bob", 12) ∷ []

decisions-permitted_example :
    decisions login_calls (record { window_seconds = 10; max_attempts = 2; attempts = [] })
    ≡ permitted 10 2 login_calls (λ _. [])
decisions-permitted_example =
    decisions-permitted login_calls 10 2
      (omega arith, (omega arith, (omega arith, (omega arith, (omega arith, tt)))))

abbrev user_json : Json
user_json = arr (
    item
      (obj (
        field "username" (str "carol") (
          field "password_hash" (str "hash") (
            field "role" (str "OPERATOR")
              (field "projects" (arr (item (str "wifi") no_items)) no_fields)))))
      no_items)

abbrev auth_host : AuthHost
auth_host = record {
  str_of = λ j. "OPERATOR";
  upper = λ s. s;
  lower = λ s. s;
  loads = λ s. some user_json;
  check_password_hash = λ hash password. (hash is "hash") && (password is "secret");
}

abbrev carol : UserRecord
carol = record {
  username = "carol";
  password_hash = "hash";
  role = Role.operator;
  projects = "wifi" ∷ [];
}

abbrev one_user : AuthManager
one_user = record { users = carol ∷ []; required = true }

one_user_ok : from_env auth_host (some "1") (some "users") ≡ ok one_user
unfolding from_env read_users users_of user_of make_user role_of text_value text_values
    projects_value new_manager entry is_blank is_space strip
one_user_ok = refl

abbrev carol_in : AuthenticatedUser
carol_in = record { username = "carol"; role = Role.operator; projects = "wifi" ∷ [] }

carol_ok : authenticate auth_host "carol" "secret" one_user ≡ some carol_in
unfolding authenticate find_user verified
carol_ok = refl

carol_may : authorize carol_in "execute" (some "wifi") ≡ true
unfolding authorize can_access_project
carol_may = refl

access-IsGranted_example : IsGranted auth_host one_user "carol" "secret" "execute" (some "wifi")
access-IsGranted_example =
    access-IsGranted auth_host one_user "carol" "secret" "execute" (some "wifi") (some "1")
      (some "users") one_user_ok carol_ok carol_may
