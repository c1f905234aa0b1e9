-- ===== src/Entity/Wounds.antt =====
-- What OnDamage does to the health, for every behaviour.
use mmo_game.Prelude.{
  ℤ, pos, ◌-ℤ◌, wrap, leb_ℤ, String, Bool, true, false, Option, none, some, ◌≡◌, refl, ◌∙◌, inl,
  inr, Bool-cases, if◌then◌else◌, ◌==◌, string_eq,
}
use mmo_game.Vec.Float.{FloatOps}
use mmo_game.Entity.{Entity, Draws, Datum, int, fetch, put}
use mmo_game.Entity.Payload.{fetch-put}
use mmo_game.Entity.Player.{hurt as hurt_player, on_damage as damage_player}
use mmo_game.Entity.Npc.{NpcBehavior}
use mmo_game.Entity.Npc.Life.{
  hurt as hurt_npc, react, flee_from as npc_flees, strike_back, on_damage as damage_npc,
}
use mmo_game.Entity.Animal.{AnimalBehavior}
use mmo_game.Entity.Animal.Life.{hurt as hurt_animal, flee_from, on_damage as damage_animal}
use mmo_game.Entity.Behavior.{EntityBehavior, player, npc, animal, on_damage}

module _ {F : Type 0} where
  -- What the reaction to a wound leaves alone.
  pub record SameHealth (e e' : Entity F) : Type 0 where
    pub same_health : fetch "health" e' ≡ fetch "health" e
    pub same_id : e'.id ≡ e.id

  both : {a b c : Entity F} → SameHealth a b → SameHealth b c → SameHealth a c
  both s t = record { same_health = t.same_health ∙ s.same_health; same_id = t.same_id ∙ s.same_id }

  put-SameHealth :
      (k : String) (v : Datum F) (e : Entity F) → (k == "health") ≡ false → SameHealth e (put k v e)
  unfolding put
  put-SameHealth k v e other = record {
    same_health = fetch-put k "health" v e ∙ rw other refl;
    same_id = refl;
  }

  -- The health falls by the damage, to 0 at least, and the result says whether it is 0.
  pub record IsHurt (e : Entity F) (health damage : ℤ) (r : Entity F × Bool) : Type 0 where
    pub dies : r.1 ≡ leb_ℤ (wrap (health -ℤ damage)) (pos 0)
    pub health_left :
        fetch "health" r.0
        ≡ some (
            int
              (if leb_ℤ (wrap (health -ℤ damage)) (pos 0) then pos 0 else wrap (health -ℤ damage)))
    pub hurt_id : r.0.id ≡ e.id

  -- Every behaviour writes 0 or what is left, and reacts only to what is left.
  wounded :
      (e after : Entity F) (health damage : ℤ)
      → SameHealth (put "health" (int (wrap (health -ℤ damage))) e) after
      → IsHurt e health damage (
          if leb_ℤ (wrap (health -ℤ damage)) (pos 0)
          then (put "health" (int (pos 0)) e, true)
          else (after, false))
  unfolding put
  wounded e after health damage same =
      let left = wrap (health -ℤ damage) in
      elim (Bool-cases (leb_ℤ left (pos 0))) [
        | inl t ↦ record {
          dies = rw t refl;
          health_left = rw t (fetch-put "health" "health" (int (pos 0)) e);
          hurt_id = rw t refl;
        }
        | inr f ↦ record {
          dies = rw f refl;
          health_left = rw f (same.same_health ∙ fetch-put "health" "health" (int left) e);
          hurt_id = rw f same.same_id;
        }
      ]

module _ {F : Type 0} (ops : FloatOps F) (draws : Draws F) where
  animal_flees :
      (ab : AnimalBehavior F) (source : Option (Entity F)) (e : Entity F)
      → SameHealth e (flee_from ops ab draws source e)
  unfolding flee_from
  animal_flees ab none e = record { same_health = refl; same_id = refl }
  animal_flees ab (some source) e = put-SameHealth "targetPosition" _ e refl

  npc_flees-SameHealth :
      (nb : NpcBehavior F) (source : Option (Entity F)) (e : Entity F)
      → SameHealth e (npc_flees ops nb draws source e)
  unfolding npc_flees
  npc_flees-SameHealth nb none e = record { same_health = refl; same_id = refl }
  npc_flees-SameHealth nb (some source) e = put-SameHealth "targetPosition" _ e refl

  strike_back-SameHealth :
      (nb : NpcBehavior F) (source : Option (Entity F)) (e : Entity F)
      → SameHealth e (strike_back ops nb draws source e)
  unfolding strike_back
  strike_back-SameHealth nb none e = record { same_health = refl; same_id = refl }
  strike_back-SameHealth nb (some source) e =
      both (both (put-SameHealth "state" _ e refl) (put-SameHealth "targetEntityID" _ _ refl))
        (put-SameHealth "actionTimer" _ _ refl)

  react-SameHealth :
      (nb : NpcBehavior F) (source : Option (Entity F)) (e : Entity F)
      → SameHealth e (react ops nb draws source e)
  unfolding react
  react-SameHealth nb source e = elim (Bool-cases (nb.npc_type == "villager")) [
    | inl t ↦ rw t (
        both (both (put-SameHealth "state" _ e refl) (put-SameHealth "actionTimer" _ _ refl))
          (npc_flees-SameHealth nb source _))
    | inr f ↦ rw f (elim (Bool-cases (nb.npc_type == "guard")) [
      | inl t ↦ rw t (strike_back-SameHealth nb source e)
      | inr f' ↦ rw f' (record { same_health = refl; same_id = refl })
    ])
  ]

  pub on_damage-IsHurt :
      (b : EntityBehavior F) (e : Entity F) (health damage : ℤ) (source : Option (Entity F))
      → fetch "health" e ≡ some (int health)
      → IsHurt e health damage (on_damage ops b draws e damage source)
  unfolding on_damage damage_player damage_npc damage_animal hurt_player hurt_npc hurt_animal
  on_damage-IsHurt (player pb) e health damage source has =
      rw has (wounded e _ health damage (record { same_health = refl; same_id = refl }))
  on_damage-IsHurt (npc nb) e health damage source has =
      rw has (wounded e _ health damage (react-SameHealth nb source _))
  on_damage-IsHurt (animal ab) e health damage source has = rw has (
      wounded e _ health damage (
        both (both (put-SameHealth "state" _ _ refl) (put-SameHealth "actionTimer" _ _ refl))
          (animal_flees ab source _)))
