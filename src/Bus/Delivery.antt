-- ===== src/Bus/Delivery.antt =====
-- Which subscribers get an event, and what becomes of an event that finds the buffer full.
use mmo_game.Prelude.{
  ◌<◌, ◌≤◌, ℤ, pos, ◌<ℤ◌, ◌≤ℤ◌, ltb_ℤ, ltb, String, Bool, true, false, ◌&&◌, ◌||◌, List, [], ◌∷◌,
  ◌++◌, ◌≡◌, ◌↔◌, ◌⊎◌, inl, inr, refl, sym, ap, ◌∙◌, length, if◌then◌else◌, string_eq, int_eq,
  beq_cases, Bool-cases, arith,
}
use mmo_game.Bus.{
  Envelope, Filter, MemoryBus, accepted, context_error, waits, publish, has_string, matches,
  match_filter, goroutines, counted_published, counted_dropped,
}

-- A value is an entry of a list.
abbrev pub Has : {A : Type 0} → List A → A → Type 0
Has [] a = ⊥
Has (x ∷ xs) a = (x ≡ a) ⊎ Has xs a

has_string_iff : (val : String) (arr : List String) → (has_string val arr ≡ true) ↔ Has arr val
has_string_iff val [] = (λ h. cc, λ h. elim h [ ])
has_string_iff val (v ∷ arr) = elim (beq_cases string_eq v val) [
  | inl (t, e) ↦ (λ h. inl e, λ h. rw t refl)
  | inr f ↦ (
    λ h. inr ((has_string_iff val arr).0 (rw f at h)),
    λ h. elim h [ inl e ↦ absurd_test f e | inr m ↦ rw f ((has_string_iff val arr).1 m) ],
  )
]
  where
    absurd_test :
        string_eq.test v val ≡ false → v ≡ val → string_eq.test v val || has_string val arr ≡ true
    absurd_test f e =
        let t : string_eq.test v val ≡ true = (string_eq.test_iff v val).1 e in rw t refl

matches_iff :
    (val : String) (arr : List String) → (matches val arr ≡ true) ↔ ((arr ≡ []) ⊎ Has arr val)
matches_iff val [] = (λ h. inl refl, λ h. refl)
matches_iff val (v ∷ arr) = (
  λ h. inr ((has_string_iff val (v ∷ arr)).0 h),
  λ h. elim h [ inl e ↦ cc | inr m ↦ (has_string_iff val (v ∷ arr)).1 m ],
)

both_iff : (a b : Bool) → (a && b ≡ true) ↔ ((a ≡ true) × (b ≡ true))
both_iff true b = (λ h. (refl, h), λ (h, k). k)
both_iff false b = (λ h. cc, λ (h, k). cc)

-- A filter lets an event through just when its list of types is empty or has the event's type,
-- and its list of sources is empty or has the event's source.
pub match_filter_iff :
    (ev : Envelope) (f : Filter)
    → (match_filter ev f ≡ true) ↔ (
        ((f.types ≡ []) ⊎ Has f.types ev.event_type) × ((f.sources ≡ []) ⊎ Has f.sources ev.source))
unfolding match_filter
match_filter_iff ev f =
    let both = both_iff (matches ev.event_type f.types) (matches ev.source f.sources) in
    let types = matches_iff ev.event_type f.types in
    let sources = matches_iff ev.source f.sources in
    (
      λ h. let (a, b) = both.0 h in (types.0 a, sources.0 b),
      λ (a, b). both.1 (types.1 a, sources.1 b),
    )

-- An event starts a goroutine for a subscriber just when the subscriber's filter lets it through.
pub goroutines_iff :
    (ev : Envelope) (subs : List (ℤ × Filter)) (id : ℤ)
    → Has (goroutines ev subs) (id, ev)
      ↔ ((f : Filter) × Has subs (id, f) × (match_filter ev f ≡ true))
unfolding goroutines
goroutines_iff ev [] id = (λ h. elim h [ ], λ (f, h, m). elim h [ ])
goroutines_iff ev ((i, g) ∷ subs) id = elim (Bool-cases (match_filter ev g)) [
  | inl t ↦ rw t (
    λ h. elim h [
      | inl e ↦ (g, inl (λ j. ((e j).0, g)), t)
      | inr m ↦ let (f, k, l) = (goroutines_iff ev subs id).0 m in (f, inr k, l)
    ],
    λ (f, h, m). elim h [
      | inl e ↦ inl (λ j. ((e j).0, ev))
      | inr k ↦ inr ((goroutines_iff ev subs id).1 (f, k, m))
    ],
  )
  | inr t ↦ rw t (
    λ h. let (f, k, l) = (goroutines_iff ev subs id).0 h in (f, inr k, l),
    λ (f, h, m). elim h [
      | inl e ↦
          let u : match_filter ev f ≡ false = ap (match_filter ev) (λ j. (sym e j).1) ∙ t in cc
      | inr k ↦ (goroutines_iff ev subs id).1 (f, k, m)
    ],
  )
]

-- Publish with room takes the event as the last of the buffer. Without room, an event of priority
-- below 5 is dropped and counted; any other is never dropped: the call waits, or returns the error of
-- its context.
pub publish-cases :
    (bus : MemoryBus) (context_done : Bool) (ev : Envelope)
    → ((length bus.buffer < bus.capacity)
        × (publish bus context_done ev
            ≡ accepted (counted_published (record bus { buffer = bus.buffer ++ ev ∷ [] }))))
      ⊎ ((bus.capacity ≤ length bus.buffer)
          × (ev.priority <ℤ pos 5)
          × (publish bus context_done ev ≡ accepted (counted_dropped bus)))
      ⊎ ((bus.capacity ≤ length bus.buffer)
          × (pos 5 ≤ℤ ev.priority)
          × (publish bus context_done ev ≡ (if context_done then context_error else waits)))
unfolding publish
publish-cases bus context_done ev = elim (Bool-cases (ltb (length bus.buffer) bus.capacity)) [
  | inl t ↦ inl (ground arith, rw t refl)
  | inr t ↦ elim (Bool-cases (ltb_ℤ ev.priority (pos 5))) [
    | inl u ↦ inr (inl (ground arith, ground arith, rw (t, u) refl))
    | inr u ↦ inr (inr (ground arith, ground arith, rw (t, u) refl))
  ]
]
