-- ===== src/Tests/Password.antt =====
-- Changes of a password, and the logins behind them.
use temporal_cloud_offering.Prelude.{ℕ, ◌≡◌, ◌≢◌, refl, true, false, [], ◌∷◌, some, none, arith, ap}
use temporal_cloud_offering.Text.{Text, codes, lookup, ◌==◌, non_empty, first_part}
use temporal_cloud_offering.Text.Hex.{to_hex}
use temporal_cloud_offering.Text.Utf8.{utf8}
use temporal_cloud_offering.Json.{Json, Value, str, obj, num, fine, member, below, literal, to_text}
use temporal_cloud_offering.Json.Doc.{printed}
use temporal_cloud_offering.Json.Laws.{with_field}
use temporal_cloud_offering.Platform.Exec.{World, done}
use temporal_cloud_offering.Platform.Memory.{Entries}
use temporal_cloud_offering.Auth.{user_key, hash_password, at}
use temporal_cloud_offering.Auth.Login.{auth_data, logged_in}
use temporal_cloud_offering.Auth.Password.{
  post_set_password, wrong_password, password_set, is_wrong,
}
use temporal_cloud_offering.Auth.Password.Laws.{
  IsChange, set_password_refused, set_password_changes, set_password_without_current,
}
use temporal_cloud_offering.Auth.Deployed.AfterChange.{IsAfterChange, set_password_then_login}
use temporal_cloud_offering.Auth.Deployed.{post_kv_login}
use temporal_cloud_offering.Auth.Deployed.Laws.{IsLogin}
use temporal_cloud_offering.Tests.{runtime, runtime_laws, env, ann}
use temporal_cloud_offering.Tests.Login.{
  email, password, new_password, login_input, new_login, hash, user, user_kv, user_found, user_hash,
  user_name,
}

abbrev iso : ℕ → Text
iso t = []

abbrev change_input : Value → Json
change_input current = literal (
    (codes "email", email)
    ∷ (codes "current_password", current)
    ∷ (codes "new_password", new_password)
    ∷ [])

change_input-IsChange :
    (current : Value)
    → IsChange runtime iso env
        (printed (change_input current))
        email
        current
        new_password
        user
        user_kv
change_input-IsChange none =
    unfold lookup below in
    record {
      input = change_input none;
      parsed = refl;
      email_given = refl;
      current_given = refl;
      new_given = refl;
      email_ok = refl;
      new_ok = refl;
      size = some (num 8);
      sized = refl;
      long_enough = refl;
      no_fault = λ i. refl;
      kv = refl;
      stored_user = user_found;
    }
change_input-IsChange (some current) =
    unfold lookup below in
    record {
      input = change_input (some current);
      parsed = refl;
      email_given = refl;
      current_given = refl;
      new_given = refl;
      email_ok = refl;
      new_ok = refl;
      size = some (num 8);
      sized = refl;
      long_enough = refl;
      no_fault = λ i. refl;
      kv = refl;
      stored_user = user_found;
    }

other_is_wrong : is_wrong runtime iso (some (str hash)) new_password ≡ true
unfolding hash_password to_hex utf8 ◌==◌ to_text
other_is_wrong = refl

secret_is_right : is_wrong runtime iso (some (str hash)) password ≡ false
unfolding hash_password to_hex utf8 ◌==◌ to_text
secret_is_right = refl

set_password_refused_example :
    let (r, v) = post_set_password runtime iso env (printed (change_input new_password)) user_kv in
    (r ≡ done wrong_password) × (v.store ≡ user_kv.store)
set_password_refused_example =
    set_password_refused runtime iso env (printed (change_input new_password)) email new_password
      new_password (some (str hash)) user user_kv (change_input-IsChange new_password) user_hash
      other_is_wrong

user_not_other : user_key ann ≢ codes "other"
unfolding user_key
user_not_other = λ e. cc

password_not_email : codes "password" ≢ codes "email"
password_not_email = λ e. cc

set_password_changes_example :
    let (r, v) = post_set_password runtime iso env (printed (change_input password)) user_kv in
    let changed = with_field (codes "password") (str (hash_password runtime new_password)) user in
    (r ≡ done password_set)
    × (runtime.get 100 (user_key ann) v.store ≡ some (printed (obj changed)))
    × (runtime.get 100 (codes "other") v.store ≡ runtime.get 100 (codes "other") user_kv.store)
    × (member (some (obj changed)) (codes "password")
        ≡ fine (some (str (hash_password runtime new_password))))
    × (member (some (obj changed)) (codes "email") ≡ member (some (obj user)) (codes "email"))
unfolding to_text
set_password_changes_example =
    set_password_changes runtime iso env (printed (change_input password)) email password
      new_password (some (str hash)) user user_kv 100 (codes "other") (codes "email") runtime_laws
      (change_input-IsChange password) user_hash secret_is_right (omega arith) user_not_other
      password_not_email

set_password_without_current_example :
    let (r, v) = post_set_password runtime iso env (printed (change_input none)) user_kv in
    let changed = with_field (codes "password") (str (hash_password runtime new_password)) user in
    (r ≡ done password_set)
    × (runtime.get 100 (user_key ann) v.store ≡ some (printed (obj changed)))
unfolding to_text
set_password_without_current_example =
    set_password_without_current runtime iso env (printed (change_input none)) email new_password
      (some (str hash)) user user_kv 100 runtime_laws (change_input-IsChange none) user_hash
      (omega arith)

-- The user after the change to `other_secret`.
abbrev changed_kv : World Entries
changed_kv =
    record (post_set_password runtime iso env (printed (change_input password)) user_kv).1 {
      calls = 9;
    }

after_change :
    IsAfterChange runtime iso env
      (printed (change_input password))
      (printed new_login)
      email
      password
      new_password
      user
      user_kv
      changed_kv
after_change = record {
  old_password = some (str hash);
  change = change_input-IsChange password;
  owned = user_hash;
  right = secret_is_right;
  same_store = refl;
  later = omega arith;
}

new_login-IsLogin : IsLogin runtime (printed new_login) email new_password
unfolding lookup
new_login-IsLogin = record {
  input = new_login;
  parsed = refl;
  email_given = refl;
  password_given = refl;
  email_ok = refl;
  password_ok = refl;
}

new_hash-non_empty : non_empty (hash_password runtime new_password) ≡ true
unfolding hash_password to_hex utf8 to_text
new_hash-non_empty = refl

set_password_then_login_example :
    ((post_set_password runtime iso env (printed (change_input password)) user_kv).0
      ≡ done password_set)
    × ((post_kv_login runtime env (printed new_login) changed_kv).0
        ≡ done (logged_in (auth_data email (str (first_part ann at)))))
set_password_then_login_example =
    set_password_then_login runtime iso env (printed (change_input password)) (printed new_login)
      email password new_password user user_kv changed_kv none (str (first_part ann at))
      runtime_laws after_change new_login-IsLogin new_hash-non_empty user_name refl

after_change_old :
    IsAfterChange runtime iso env
      (printed (change_input password))
      (printed login_input)
      email
      password
      new_password
      user
      user_kv
      changed_kv
after_change_old = record {
  old_password = some (str hash);
  change = change_input-IsChange password;
  owned = user_hash;
  right = secret_is_right;
  same_store = refl;
  later = omega arith;
}

abbrev first_unit : Text → ℕ
first_unit [] = 0
first_unit (c ∷ s) = c

hashes_differ : hash_password runtime new_password ≢ hash_password runtime password
unfolding hash_password to_hex utf8 to_text
hashes_differ = λ e. omega (arith, ap first_unit e)
