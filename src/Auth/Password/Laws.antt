-- ===== src/Auth/Password/Laws.antt =====
-- What POST /api/auth/set-password does to the stored user, on each branch.
use temporal_cloud_offering.Prelude.{ℕ, suc, ◌≡◌, ◌≢◌, ◌≤◌, true, false, some, none, arith}
use temporal_cloud_offering.Text.{Text, codes}
use temporal_cloud_offering.Json.{
  Json, Value, Fields, obj, str, fine, member, truthy, text_of, length_of, below,
}
use temporal_cloud_offering.Json.Laws.{with_field, member-with_field_self, member-with_field_ne}
use temporal_cloud_offering.Json.Doc.{Doc, parse, printed}
use temporal_cloud_offering.Platform.{Platform, KvLaws}
use temporal_cloud_offering.Platform.Exec.{World, done}
use temporal_cloud_offering.Auth.{Env, user_key, hash_password}
use temporal_cloud_offering.Auth.Password.{
  post_set_password, set_password, store_password, update_user, is_wrong, wrong_password,
  password_set, mark_cookie,
}

module _ (p : Platform) (iso : ℕ → Text) (env : Env) where
  -- A request for a stored user, that passes the checks of the input, on a runtime where no call
  -- fails.
  pub record IsChange (body : Doc) (email current new_password : Value) (fs : Fields)
      (w : World p.Store) : Type 0 where
    pub input : Json
    pub parsed : parse body ≡ fine input
    pub email_given : member (some input) (codes "email") ≡ fine email
    pub current_given : member (some input) (codes "current_password") ≡ fine current
    pub new_given : member (some input) (codes "new_password") ≡ fine new_password
    pub email_ok : truthy email ≡ true
    pub new_ok : truthy new_password ≡ true
    pub size : Value
    pub sized : length_of new_password ≡ fine size
    pub long_enough : below p.text_below size 8 ≡ false
    pub no_fault : (i : ℕ) → p.fault i ≡ false
    pub kv : env.kv ≡ true
    pub stored_user :
        p.get (p.clock w.calls) (user_key (text_of email)) w.store ≡ some (printed (obj fs))

  mark_cookie-store :
      (w : World p.Store)
      → ((mark_cookie p iso w).0 ≡ done tt)
        × ((mark_cookie p iso w).1.store ≡ w.store)
        × ((mark_cookie p iso w).1.calls ≡ w.calls)
  unfolding mark_cookie
  mark_cookie-store w = ground arith

  -- A current password that is given and does not match the stored one is refused, and KV is
  -- as before.
  pub set_password_refused :
      (body : Doc) (email current new_password password : Value) (fs : Fields) (w : World p.Store)
      → IsChange body email current new_password fs w
      → member (some (obj fs)) (codes "password") ≡ fine password
      → is_wrong p iso password current ≡ true
      → let (r, v) = post_set_password p iso env body w in
        (r ≡ done wrong_password) × (v.store ≡ w.store)
  unfolding post_set_password set_password store_password update_user
  set_password_refused body email current new_password password fs w c owned wrong = ground (
    arith,
    c.parsed,
    c.email_given,
    c.current_given,
    c.new_given,
    c.email_ok,
    c.new_ok,
    c.sized,
    c.long_enough,
    c.kv,
    c.stored_user,
    c.no_fault w.calls,
  )

  -- The store behind a change.
  changed : Value → Value → Fields → World p.Store → p.Store
  changed email new_password fs w =
      p.put (p.clock (suc w.calls)) (user_key (text_of email))
        (printed (obj (with_field (codes "password") (str (hash_password p new_password)) fs))) none
        w.store

  set_password_run :
      (body : Doc) (email current new_password password : Value) (fs : Fields) (w : World p.Store)
      → IsChange body email current new_password fs w
      → member (some (obj fs)) (codes "password") ≡ fine password
      → is_wrong p iso password current ≡ false
      → let (r, v) = post_set_password p iso env body w in
        (r ≡ done password_set)
        × (v.store ≡ changed email new_password fs w)
        × (v.calls ≡ suc (suc w.calls))
  unfolding post_set_password set_password store_password update_user changed
  set_password_run body email current new_password password fs w c owned right = ground (
    arith,
    c.parsed,
    c.email_given,
    c.current_given,
    c.new_given,
    c.email_ok,
    c.new_ok,
    c.sized,
    c.long_enough,
    c.kv,
    c.stored_user,
    c.no_fault w.calls,
    c.no_fault (suc w.calls),
    mark_cookie-store
        (record w { calls = suc (suc w.calls); store = changed email new_password fs w }),
  )

  -- A change for a stored user whose current password is not wrong goes through: at any later time
  -- KV holds the user with the hash of the new password and with every other property as it was,
  -- and under any other key what it held.
  pub set_password_changes :
      (body : Doc) (email current new_password password : Value) (fs : Fields) (w : World p.Store)
      (now : ℕ) (key name : Text)
      → KvLaws p
      → IsChange body email current new_password fs w
      → member (some (obj fs)) (codes "password") ≡ fine password
      → is_wrong p iso password current ≡ false
      → p.clock (suc w.calls) ≤ now
      → user_key (text_of email) ≢ key
      → codes "password" ≢ name
      → let (r, v) = post_set_password p iso env body w in
        let user = with_field (codes "password") (str (hash_password p new_password)) fs in
        (r ≡ done password_set)
        × (p.get now (user_key (text_of email)) v.store ≡ some (printed (obj user)))
        × (p.get now key v.store ≡ p.get now key w.store)
        × (member (some (obj user)) (codes "password")
            ≡ fine (some (str (hash_password p new_password))))
        × (member (some (obj user)) name ≡ member (some (obj fs)) name)
  unfolding changed
  set_password_changes body email current new_password password fs w now key name laws c owned right
        le other_key other_name =
      let run = set_password_run body email current new_password password fs w c owned right in
      (
        run.0,
        rw run.1 (laws.get-put_forever _ now _ _ _ le),
        rw run.1 (laws.get-put_ne _ now _ _ _ _ _ other_key),
        member-with_field_self (codes "password") _ fs,
        member-with_field_ne (codes "password") name _ fs other_name,
      )

  -- A request for a stored user that leaves out `current_password` is granted, whatever password
  -- the user has: at any later time KV holds the user with the hash of the new password.
  pub set_password_without_current :
      (body : Doc) (email new_password password : Value) (fs : Fields) (w : World p.Store) (now : ℕ)
      → KvLaws p
      → IsChange body email none new_password fs w
      → member (some (obj fs)) (codes "password") ≡ fine password
      → p.clock (suc w.calls) ≤ now
      → let (r, v) = post_set_password p iso env body w in
        let user = with_field (codes "password") (str (hash_password p new_password)) fs in
        (r ≡ done password_set)
        × (p.get now (user_key (text_of email)) v.store ≡ some (printed (obj user)))
  unfolding changed
  set_password_without_current body email new_password password fs w now laws c owned le =
      let run =
        set_password_run body email none new_password password fs w c owned (ground arith) in
      (run.0, rw run.1 (laws.get-put_forever _ now _ _ _ le))
