-- ===== src/Entity/Animal/Whole.antt =====
-- The data without which an animal's Update panics, and that every method keeps.
use mmo_game.Prelude.{
  ℤ, pos, String, Bool, true, false, Option, none, some, ◌≡◌, refl, ◌∙◌, ◌⊎◌, inl, inr, Bool-cases,
  lookup, insert, lookup-insert, if◌then◌else◌, ◌==◌, string_eq,
}
use mmo_game.Vec.{Vec2}
use mmo_game.Vec.Float.{FloatOps}
use mmo_game.Entity.{Entity, Payload, Draws, Datum, int, float, string, point, fetch, put}
use mmo_game.Entity.Steering.{random_in_range}
use mmo_game.Entity.Animal.{
  AnimalBehavior, fill_animal_data, init_animal_data, filled_if, homed, set_out, update_base_state,
  arrived, head_for, go_on, process_state,
}

module _ {F : Type 0} where
  pub record HasData (p : Payload F) : Type 0 where
    pub marked : (v : Datum F) × (lookup "animalType" p ≡ some v)
    pub hungry : (h : ℤ) × (lookup "hunger" p ≡ some (int h))
    pub acting : (s : String) × (lookup "state" p ≡ some (string s))
    pub timed : (t : F) × (lookup "actionTimer" p ≡ some (float t))

  abbrev pub IsWhole : Entity F → Type 0
  IsWhole e = HasData e.payload

  -- A write to another key.
  pub put_other :
      (k : String) (v : Datum F) (p : Payload F)
      → (k == "animalType") ≡ false
      → (k == "hunger") ≡ false
      → (k == "state") ≡ false
      → (k == "actionTimer") ≡ false
      → HasData p
      → HasData (insert k v p)
  put_other k v p a b c d h = record {
    marked = (h.marked.0, rw (lookup-insert "animalType" k v p, a) h.marked.1);
    hungry = (h.hungry.0, rw (lookup-insert "hunger" k v p, b) h.hungry.1);
    acting = (h.acting.0, rw (lookup-insert "state" k v p, c) h.acting.1);
    timed = (h.timed.0, rw (lookup-insert "actionTimer" k v p, d) h.timed.1);
  }

  pub put_hunger : (n : ℤ) (p : Payload F) → HasData p → HasData (insert "hunger" (int n) p)
  put_hunger n p h = record {
    marked = (h.marked.0, lookup-insert "animalType" "hunger" (int n) p ∙ h.marked.1);
    hungry = (n, lookup-insert "hunger" "hunger" (int n) p);
    acting = (h.acting.0, lookup-insert "state" "hunger" (int n) p ∙ h.acting.1);
    timed = (h.timed.0, lookup-insert "actionTimer" "hunger" (int n) p ∙ h.timed.1);
  }

  pub put_state : (s : String) (p : Payload F) → HasData p → HasData (insert "state" (string s) p)
  put_state s p h = record {
    marked = (h.marked.0, lookup-insert "animalType" "state" (string s) p ∙ h.marked.1);
    hungry = (h.hungry.0, lookup-insert "hunger" "state" (string s) p ∙ h.hungry.1);
    acting = (s, lookup-insert "state" "state" (string s) p);
    timed = (h.timed.0, lookup-insert "actionTimer" "state" (string s) p ∙ h.timed.1);
  }

  pub put_timer : (t : F) (p : Payload F) → HasData p → HasData (insert "actionTimer" (float t) p)
  put_timer t p h = record {
    marked = (h.marked.0, lookup-insert "animalType" "actionTimer" (float t) p ∙ h.marked.1);
    hungry = (h.hungry.0, lookup-insert "hunger" "actionTimer" (float t) p ∙ h.hungry.1);
    acting = (h.acting.0, lookup-insert "state" "actionTimer" (float t) p ∙ h.acting.1);
    timed = (t, lookup-insert "actionTimer" "actionTimer" (float t) p);
  }

  pub put_target :
      (q : Vec2) (p : Payload F) → HasData p → HasData (insert "targetPosition" (point q) p)
  put_target q p h = put_other "targetPosition" (point q) p refl refl refl refl h

-- One of two, both of which keep the data.
pub if-HasData :
    {F : Type 0} (b : Bool) (e e' : Entity F)
    → HasData e.payload
    → HasData e'.payload
    → HasData (if b then e else e').payload
if-HasData true e e' h h' = h
if-HasData false e e' h h' = h'

module _ {F : Type 0} (ops : FloatOps F) (ab : AnimalBehavior F) (draws : Draws F) where
  fill-IsWhole : (e : Entity F) → IsWhole (fill_animal_data ops ab draws e)
  unfolding fill_animal_data put
  fill-IsWhole e = record {
    marked = (int (pos ab.kind), simp lookup-insert);
    hungry = (pos 0, simp lookup-insert);
    acting = ("idle", simp lookup-insert);
    timed = (random_in_range ops draws.first_timer ab.idle_time_range, simp lookup-insert);
  }

  -- Update gives an animal its data when it has no animalType.
  pub init-IsWhole :
      (e : Entity F)
      → (fetch "animalType" e ≡ none) ⊎ IsWhole e
      → IsWhole (init_animal_data ops ab draws e)
  unfolding init_animal_data filled_if fetch
  init-IsWhole e (inl bare) = rw bare (fill-IsWhole e)
  init-IsWhole e (inr h) = rw h.marked.1 h

  homed-IsWhole : (o : Option Vec2) (e : Entity F) → IsWhole e → IsWhole (homed ops ab draws o e).0
  unfolding homed put
  homed-IsWhole (some home) e h = h
  homed-IsWhole none e h =
      put_other "homePosition" (point e.position) e.payload refl refl refl refl h

  pub update_base_state-IsWhole :
      (e : Entity F) (state : String) (timer : F)
      → IsWhole e
      → IsWhole (update_base_state ops ab draws e state timer).0
  unfolding update_base_state set_out put
  update_base_state-IsWhole e state timer h = elim (Bool-cases (state == "idle")) [
    | inl t ↦ rw t (
        put_target _ _
          (homed-IsWhole _ (put "state" (string "moving") e) (put_state "moving" e.payload h)))
    | inr f ↦ rw f (elim (Bool-cases (state == "moving")) [
      | inl t ↦ rw t (put_state "idle" e.payload h)
      | inr f' ↦ rw f' h
    ])
  ]

  go_on-IsWhole : (o : Option Vec2) (e : Entity F) → IsWhole e → IsWhole (go_on ops ab draws o e)
  unfolding go_on arrived head_for put
  go_on-IsWhole none e h = h
  go_on-IsWhole (some target) e h =
      if-HasData _ (arrived ops ab draws e) (head_for ops ab draws e target)
        (put_timer _ _ (put_state "idle" e.payload h)) h

  pub process_state-IsWhole :
      (e : Entity F) (state : String) → IsWhole e → IsWhole (process_state ops ab draws e state)
  unfolding process_state
  process_state-IsWhole e state h = elim (Bool-cases (state == "idle")) [
    | inl t ↦ rw t h
    | inr f ↦ rw f (if-HasData (state == "moving") _ e (go_on-IsWhole _ e h) h)
  ]
