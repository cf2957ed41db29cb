-- ===== src/Groups/Cascade.antt =====
-- What the deletion of a group takes with it.
use open_sso.Prelude.{
  ℕ, ◌==◌, count, exists, Bool-cases, true, false, ◌≡◌, ◌⊎◌, inl, inr, refl, arith,
}
use open_sso.Store.{Db}
use open_sso.Store.Tables.{exists-select, count_zero}
use open_sso.Web.{Env, World, Response, run}
use open_sso.Session.{Principal}
use open_sso.Groups.{remove_group, delete_group}
use open_sso.Audit.{insert_event}

-- No row names the group.
abbrev IsForgotten : ℕ → Db → Type 0
IsForgotten id db =
    (exists (λ g. g.id == id) db.groups ≡ false)
    × (exists (λ m. m.group_id == id) db.memberships ≡ false)
    × (exists (λ a. a.group_id == id) db.group_assignments ≡ false)
    × (exists (λ p. p.group_id == id) db.group_mfa_policies ≡ false)

-- The answer is 204 and no row names the group, or it is not 204 and the database is as it was.
abbrev Forgets : ℕ → Db → Response × World → Type 0
Forgets id db (r, v) =
    ((r.status ≡ 204) × IsForgotten id v.db) ⊎ ((r.status == 204 ≡ false) × (v.db ≡ db))

remove_group_cases :
    (id : ℕ) (db : Db)
    → ((count (λ g. g.id == id) db.groups == 0 ≡ false) × IsForgotten id (remove_group id db))
      ⊎ ((count (λ g. g.id == id) db.groups == 0 ≡ true) × (remove_group id db ≡ db))
unfolding remove_group
remove_group_cases id db = elim (Bool-cases (exists (λ g. g.id == id) db.groups)) [
  | inl h ↦
      rw (count_zero (λ g. g.id == id) db.groups, h)
        (inl (
          refl,
          (
            exists-select (λ g. g.id == id) db.groups,
            exists-select (λ m. m.group_id == id) db.memberships,
            exists-select (λ a. a.group_id == id) db.group_assignments,
            exists-select (λ p. p.group_id == id) db.group_mfa_policies,
          ),
        ))
  | inr h ↦ rw (count_zero (λ g. g.id == id) db.groups, h) (inr (refl, refl))
]

-- A deletion of a group answers 204 and leaves no group, membership, assignment or policy that
-- names it, or does not answer 204 and keeps the database.
delete_group-Forgets :
    (actor : Principal) (id : ℕ) (e : Env) (w : World)
    → Forgets id w.db (run (delete_group actor id) e w)
unfolding delete_group insert_event
delete_group-Forgets actor id e w = ground (arith, remove_group_cases id w.db)
