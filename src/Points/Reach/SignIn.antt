-- ===== src/Points/Reach/SignIn.antt =====
-- `upsert_user` keeps the tables of points sound: who was a user stays one.
use gitbounty.Base.{
  ℕ, ◌≡◌, refl, true, Option, none, some, List, [], ◌∷◌, ◌++◌, arith, All-map, Any-map,
  Option-cases, inl, inr,
}
use gitbounty.Text.{Text}
use gitbounty.Points.{User, Entry, Allocation, Db}
use gitbounty.Points.Users.{github_id_of, user_id_of, update_user, upsert_user}
use gitbounty.Points.Ledger.{is_null_or_user}
use gitbounty.Points.Sound.{Covers, IsSound}

-- The users of one table are found in another.
abbrev Known : List User → List User → Type 0
Known us vs = (i g : ℕ) → github_id_of us i ≡ some g → github_id_of vs i ≡ some g

update_user-Known :
    (github_id : ℕ) (login : Text) (avatar_url : Option Text) (us : List User)
    → Known us (update_user github_id login avatar_url us)
unfolding github_id_of update_user
update_user-Known github_id login avatar_url [] i g h = h
update_user-Known github_id login avatar_url (r ∷ us) i g h =
    ground (arith, update_user-Known github_id login avatar_url us i g)

append-Known : (us : List User) (r : User) → Known us (us ++ r ∷ [])
unfolding github_id_of
append-Known [] r i g h = absurd (ground arith)
append-Known (x ∷ us) r i g h = ground (arith, append-Known us r i g)

module _ (lower : Text → Text) where
  Known-Covers :
      (us vs : List User)
      → Known us vs
      → (e : Entry) (a : Allocation) → Covers us e a
      → Covers vs e a
  Known-Covers us vs h e a c = record {
    linked = c.linked;
    kind = c.kind;
    pr = c.pr;
    repo = c.repo;
    number = c.number;
    owner = h e.user_id a.github_id c.owner;
  }

  Known-IsOfUser :
      (us vs : List User)
      → Known us vs
      → (m : Option ℕ) → is_null_or_user us m ≡ true
      → is_null_or_user vs m ≡ true
  Known-IsOfUser us vs h none k = refl
  Known-IsOfUser us vs h (some i) k = elim (Option-cases (github_id_of us i)) [
    | inl missing ↦ absurd (ground (arith, missing))
    | inr (g, e) ↦ rw (h i g e) refl
  ]

  pub users-IsSound :
      (db db' : Db)
      → Known db.users db'.users
      → db'.ledger ≡ db.ledger
      → db'.next_entry ≡ db.next_entry
      → db'.allocations ≡ db.allocations
      → db'.next_allocation ≡ db.next_allocation
      → IsSound lower db
      → IsSound lower db'
  users-IsSound db db' h l n a m sound = record {
    distinct = rw a sound.distinct;
    fresh = rw (a, m) sound.fresh;
    formed = rw a sound.formed;
    known = rw a (
        All-map db.allocations
          (λ b k. Known-IsOfUser db.users db'.users h b.award.maintainer_user_id k) sound.known);
    numbered = rw (l, n) sound.numbered;
    backed =
        rw (l, a)
          (All-map db.ledger (λ e k award. Any-map (Known-Covers db.users db'.users h e) (k award))
            sound.backed);
  }

  pub upsert_user-IsSound :
      (github_id : ℕ) (login : Text) (avatar_url : Option Text) (db : Db)
      → IsSound lower db
      → IsSound lower (upsert_user github_id login avatar_url db).0
  unfolding upsert_user
  upsert_user-IsSound github_id login avatar_url db sound =
      elim (Option-cases (user_id_of db.users github_id)) [
        | inr (i, e) ↦
            rw (e, upsert_user)
              (users-IsSound db _ (update_user-Known github_id login avatar_url db.users) refl refl
                refl refl sound)
        | inl new ↦
            rw (new, upsert_user)
              (users-IsSound db _ (append-Known db.users _) refl refl refl refl sound)
      ]
