-- ===== src/Moderation/Resolve.antt =====
-- `resolve_flag` of routes/moderation.py, asked again.
use gitbounty.Base.{
  ℕ, ◌≡◌, refl, ap, ◌∙◌, true, false, Option, some, List, [], ◌∷◌, ◌==◌, map, arith, Bool-cases,
  is_some, Option-cases, inl, inr, if◌then◌else◌,
}
use gitbounty.Text.{Text, strip, Unicode}
use gitbounty.Points.{Db}
use gitbounty.Points.Users.{github_id_of}
use gitbounty.Moderation.{
  is_blank, resolved, update_flag, find_flag, status_of, is_unresolved, store_resolution,
  resolve_open, resolve_flag,
}
use gitbounty.Moderation.Flags.{
  Answer, done, bad_request, forbidden, not_found, conflict, raised, ◌>>=◌, Resolution, CurrentUser,
  Flag, Desk, is_admin, actor,
}

-- A table in which one flag is replaced by a resolved one.
record Closed (i : ℕ) (flags flags' : List Flag) : Type 0 where
  f : Flag → Flag
  updated : flags' ≡ map (update_flag i f) flags
  closed : (x : Flag) → (is_unresolved (f x).status ≡ false) × ((f x).id ≡ x.id)

find_flag-id : (i : ℕ) (fs : List Flag) (x : Flag) → find_flag i fs ≡ some x → x.id ≡ i
unfolding find_flag
find_flag-id i [] x h = cc
find_flag-id i (f ∷ fs) x h = ground (arith, find_flag-id i fs x)

found_first :
    (y : Flag) (n i : ℕ) (rest : Option Flag)
    → y.id ≡ n
    → (n == i) ≡ true
    → (if y.id == i then some y else rest) ≡ some y
found_first y n i rest p q = ground arith

find_flag-update :
    (i : ℕ) (g : Flag → Flag)
    → ((x : Flag) → (g x).id ≡ x.id)
    → (fs : List Flag) (x : Flag) → find_flag i fs ≡ some x
    → find_flag i (map (update_flag i g) fs) ≡ some (g x)
unfolding find_flag
find_flag-update i g keeps [] x h = cc
find_flag-update i g keeps (f ∷ fs) x h = elim (Bool-cases (f.id == i)) [
  | inl e ↦
      let same : f ≡ x = ground arith in
      rw e (found_first (g f) f.id i _ (keeps f) e ∙ ap (λ y. some (g y)) same)
  | inr e ↦ rw (e, e) (find_flag-update i g keeps fs x (ground arith))
]

status_of-closed : (r : Resolution) → is_unresolved (status_of r) ≡ false
status_of-closed r = ground arith

module _ (u : Unicode) (lower : Text → Text) where
  resolve_open-Closed :
      (resolution : Resolution) (reason : Text) (moderator : CurrentUser) (flag f : Flag)
      (d d' : Desk)
      → resolve_open u lower resolution reason moderator flag d ≡ done (d', f)
      → Closed flag.id d.flags d'.flags
  unfolding store_resolution
  resolve_open-Closed resolution reason moderator flag f d d' = unfold resolve_open in stored _
    where
      stored :
          (c : Answer (Db × Option ℕ))
          → (c
              >>= store_resolution u lower resolution reason
                  (actor moderator d.db).1
                  moderator.github_login
                  flag
                  d)
            ≡ done (d', f)
          → Closed flag.id d.flags d'.flags
      stored (done corrected) h = elim (Bool-cases (is_blank (strip u.is_space reason))) [
        | inl e ↦ absurd (ground arith)
        | inr e ↦
            elim (Bool-cases (is_some (github_id_of corrected.0.users (actor moderator d.db).1))) [
              | inr gone ↦ absurd (ground (arith, e, gone))
              | inl known ↦ record {
                f =
                    resolved u resolution reason (actor moderator d.db).1 moderator.github_login
                      corrected.1 d.db.now;
                updated = ground (arith, e, known);
                closed = λ x. (status_of-closed resolution, refl);
              }
            ]
      ]
      stored bad_request h = absurd (ground arith)
      stored forbidden h = absurd (ground arith)
      stored not_found h = absurd (ground arith)
      stored conflict h = absurd (ground arith)
      stored (raised e) h = absurd (ground arith)

  -- A report that is resolved stays resolved: whoever asks for whatever resolution next is answered
  -- with a conflict, and nothing is written.
  pub resolve_flag-once :
      (administrators : List ℕ) (flag_id : ℕ) (d d' : Desk) (f : Flag)
      (resolution again : Resolution) (reason reason_again : Text) (moderator next : CurrentUser)
      → resolve_flag u lower administrators flag_id resolution reason moderator d ≡ done (d', f)
      → is_admin administrators next ≡ true
      → resolve_flag u lower administrators flag_id again reason_again next d' ≡ conflict
  unfolding resolve_flag
  resolve_flag-once administrators flag_id d d' f resolution again reason reason_again moderator
        next h allowed =
      elim (Bool-cases (is_admin administrators moderator)) [
        | inr stranger ↦ absurd (ground arith)
        | inl admin ↦ elim (Option-cases (find_flag flag_id d.flags)) [
          | inl missing ↦ absurd (ground arith)
          | inr (flag, found) ↦ elim (Bool-cases (is_unresolved flag.status)) [
            | inr settled ↦ absurd (ground arith)
            | inl open_still ↦
                let c =
                  resolve_open-Closed resolution reason moderator flag f d d' (ground arith) in
                let same = find_flag-id flag_id d.flags flag found in
                let now =
                  ap (find_flag flag_id)
                    (c.updated ∙ ap (λ n. map (update_flag n c.f) d.flags) same)
                  ∙ find_flag-update flag_id c.f (λ x. (c.closed x).1) d.flags flag found in
                rw (allowed, now, (c.closed flag).0) refl
          ]
        ]
      ]
