-- ===== src/Points/Users.antt =====
-- `users`, and `upsert_user` of features/points/store.py.
use gitbounty.Base.{ℕ, suc, Option, none, some, List, [], ◌∷◌, ◌++◌, ◌==◌, if◌then◌else◌}
use gitbounty.Text.{Text}
use gitbounty.Points.{User, Db}

-- `select github_id from users where id = $1`
unfoldable pub github_id_of : List User → ℕ → Option ℕ
github_id_of [] user_id = none
github_id_of (r ∷ rs) user_id =
    if r.id == user_id then some r.github_id else github_id_of rs user_id

-- `select id from users where github_id = $1`
unfoldable pub user_id_of : List User → ℕ → Option ℕ
user_id_of [] github_id = none
user_id_of (r ∷ rs) github_id =
    if r.github_id == github_id then some r.id else user_id_of rs github_id

abbrev coalesce : Option Text → Option Text → Option Text
coalesce none d = d
coalesce (some t) d = some t

-- `on conflict (github_id) do update`
unfoldable pub update_user : ℕ → Text → Option Text → List User → List User
update_user github_id login avatar_url [] = []
update_user github_id login avatar_url (r ∷ rs) =
    (if r.github_id == github_id
      then record r { github_login = login; avatar_url = coalesce avatar_url r.avatar_url }
      else r)
    ∷ update_user github_id login avatar_url rs

unfoldable pub upsert_user : ℕ → Text → Option Text → Db → Db × ℕ
upsert_user github_id login avatar_url db = elim (user_id_of db.users github_id) [
  | some user_id ↦ (record db { users = update_user github_id login avatar_url db.users }, user_id)
  | none ↦ (
    record db {
      users =
          db.users
          ++ record {
            id = db.next_user;
            github_id = github_id;
            github_login = login;
            avatar_url = avatar_url;
          }
            ∷ [];
      next_user = suc db.next_user;
    },
    db.next_user,
  )
]
