-- ===== src/Auth/Deployed/AfterChange.antt =====
-- A change of the password (set-password of the sources) and the login of the committed Node build
-- behind it: both read and write the user under the same key and with the same hash.
use temporal_cloud_offering.Prelude.{ℕ, suc, ◌≡◌, ◌≢◌, ◌≤◌, ◌∙◌, false, true, some, arith}
use temporal_cloud_offering.Text.{Text, codes, non_empty}
use temporal_cloud_offering.Text.Laws.{==_iff}
use temporal_cloud_offering.Json.{Json, Value, Fields, obj, str, fine, member, text_of}
use temporal_cloud_offering.Json.Laws.{with_field, member-with_field_self, member-with_field_ne}
use temporal_cloud_offering.Json.Doc.{Doc, printed}
use temporal_cloud_offering.Platform.{Platform, KvLaws}
use temporal_cloud_offering.Platform.Exec.{World, done}
use temporal_cloud_offering.Auth.{Env, user_key, hash_password, display_name}
use temporal_cloud_offering.Auth.Login.{auth_data, logged_in}
use temporal_cloud_offering.Auth.Password.{post_set_password, is_wrong, password_set}
use temporal_cloud_offering.Auth.Password.Laws.{IsChange, set_password_changes}
use temporal_cloud_offering.Auth.Deployed.{post_kv_login, kv_login, check_user, invalid_credentials}
use temporal_cloud_offering.Auth.Deployed.Laws.{IsLogin, post_kv_login_complete}

name_not_password : codes "password" ≢ codes "name"
name_not_password = λ e. cc

module _ (p : Platform) (iso : ℕ → Text) (env : Env) (body login_body : Doc)
    (email current new_password : Value) (fs : Fields) (w u : World p.Store) where
  -- The login comes after the change, on the store that it left.
  pub record IsAfterChange : Type 0 where
    pub old_password : Value
    pub change : IsChange p iso env body email current new_password fs w
    pub owned : member (some (obj fs)) (codes "password") ≡ fine old_password
    pub right : is_wrong p iso old_password current ≡ false
    pub same_store : u.store ≡ (post_set_password p iso env body w).1.store
    pub later : p.clock (suc w.calls) ≤ p.clock u.calls

  -- The user with the hash of the new password.
  abbrev updated : Fields
  updated = with_field (codes "password") (str (hash_password p new_password)) fs

  changed_user :
      KvLaws p
      → IsAfterChange
      → user_key (text_of email) ≢ codes ""
      → p.get (p.clock u.calls) (user_key (text_of email)) u.store ≡ some (printed (obj updated))
  changed_user laws a ne = rw a.same_store (
      (set_password_changes p iso env body email current new_password a.old_password fs w
        (p.clock u.calls) (codes "") (codes "name") laws a.change a.owned a.right a.later ne
        name_not_password).1)

  user_key-not_empty : user_key (text_of email) ≢ codes ""
  unfolding user_key
  user_key-not_empty = λ e. cc

  -- After a change that is granted, a login with the new password is let in, with the stored name.
  pub set_password_then_login :
      (name : Value) (shown : Json)
      → KvLaws p
      → IsAfterChange
      → IsLogin p login_body email new_password
      → non_empty (hash_password p new_password) ≡ true
      → member (some (obj fs)) (codes "name") ≡ fine name
      → display_name name email ≡ fine shown
      → ((post_set_password p iso env body w).0 ≡ done password_set)
        × ((post_kv_login p env login_body u).0 ≡ done (logged_in (auth_data email shown)))
  set_password_then_login name shown laws a l hashed named display =
      let changes =
        set_password_changes p iso env body email current new_password a.old_password fs w
          (p.clock u.calls) (codes "") (codes "name") laws a.change a.owned a.right a.later
          user_key-not_empty name_not_password in
      let login =
        post_kv_login_complete p env login_body email new_password u updated name shown a.change.kv
          l (a.change.no_fault u.calls) (changed_user laws a user_key-not_empty)
          (member-with_field_self (codes "password") (str (hash_password p new_password)) fs) hashed
          (member-with_field_ne (codes "password") (codes "name") _ fs name_not_password ∙ named)
          display in
      (changes.0, login.0)

  -- After a change that is granted, a login with a password of another hash is refused.
  set_password_locks_out :
      (password : Value)
      → KvLaws p
      → IsAfterChange
      → IsLogin p login_body email password
      → hash_password p new_password ≢ hash_password p password
      → (post_kv_login p env login_body u).0 ≡ done invalid_credentials
  unfolding post_kv_login kv_login check_user
  set_password_locks_out password laws a l other = ground (
    arith,
    l.parsed,
    l.email_given,
    l.password_given,
    l.email_ok,
    l.password_ok,
    a.change.kv,
    a.change.no_fault u.calls,
    changed_user laws a user_key-not_empty,
    member-with_field_self (codes "password") (str (hash_password p new_password)) fs,
    ==_iff (hash_password p new_password) (hash_password p password),
  )
