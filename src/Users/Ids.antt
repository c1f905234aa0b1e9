-- ===== src/Users/Ids.antt =====
-- Lists of accounts with different ids.
use mmo_game.Prelude.{
  String, some, List, [], ◌∷◌, All, lookup, insert, All-insert, All-lookup, ◌≡◌, ◌≢◌, refl, sym, ap,
  ◌∙◌, subst, inl, inr, Bool-cases, beq_cases, beq_self, ◌==◌, nat_eq, string_eq, arith,
}
use mmo_game.Users.{User, find_id}

-- No two entries have the same id.
abbrev pub Distinct : List (String × User) → Type 0
Distinct [] = Unit {0}
Distinct ((k, u) ∷ l) = All (λ e. e.1.id ≢ u.id) l × Distinct l

pub Distinct-insert_new :
    (k : String) (u : User) (l : List (String × User))
    → All (λ e. e.1.id ≢ u.id) l
    → Distinct l
    → Distinct (insert k u l)
unfolding insert
Distinct-insert_new k u [] a d = (tt, tt)
Distinct-insert_new k u ((j, w) ∷ l) a d = elim (Bool-cases (j == k)) [
  | inl same ↦ rw same (a.1, d.1)
  | inr other ↦ rw other (
    All-insert (λ e. e.1.id ≢ w.id) k u l (λ h. a.0 (sym h)) d.0,
    Distinct-insert_new k u l a.1 d.1,
  )
]

pub Distinct-insert_same :
    (k : String) (u old : User) (l : List (String × User))
    → lookup k l ≡ some old
    → u.id ≡ old.id
    → Distinct l
    → Distinct (insert k u l)
unfolding insert lookup
Distinct-insert_same k u old [] h e d = cc
Distinct-insert_same k u old ((j, w) ∷ l) h e d = elim (Bool-cases (j == k)) [
  | inl same ↦
      let was : w ≡ old = ground (arith, (rw same at h)) in
      rw same
        (subst (λ n. All (λ e'. e'.1.id ≢ n) l) (ap (λ (x : User). x.id) was ∙ sym e) d.0, d.1)
  | inr other ↦
      let below : lookup k l ≡ some old = rw other at h in
      let far : old.id ≢ w.id = All-lookup (λ e'. e'.1.id ≢ w.id) k old l d.0 below in
      rw other (
        All-insert (λ e'. e'.1.id ≢ w.id) k u l (λ q. far (sym e ∙ q)) d.0,
        Distinct-insert_same k u old l below e d.1,
      )
]

pub find_id-Distinct :
    (k : String) (u : User) (l : List (String × User))
    → Distinct l
    → lookup k l ≡ some u
    → find_id u.id l ≡ some u
unfolding find_id lookup
find_id-Distinct k u [] d h = cc
find_id-Distinct k u ((j, w) ∷ l) d h = elim (Bool-cases (j == k)) [
  | inl same ↦
      let was : w ≡ u = ground (arith, (rw same at h)) in rw (was, beq_self nat_eq u.id) refl
  | inr other ↦
      let below : lookup k l ≡ some u = rw other at h in
      let far : u.id ≢ w.id = All-lookup (λ e. e.1.id ≢ w.id) k u l d.0 below in
      elim (beq_cases nat_eq w.id u.id) [
        | inl (t, q) ↦ absurd (far (sym q))
        | inr t ↦ rw t (find_id-Distinct k u l d.1 below)
      ]
]
