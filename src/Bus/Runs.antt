-- ===== src/Bus/Runs.antt =====
-- The bus over time, as steps in any order.
use mmo_game.Prelude.{
  ℕ, ◌+◌, ℤ, Bool, true, false, Option, some, List, [], ◌∷◌, ◌++◌, ◌≡◌, ◌≢◌, inl, inr, refl, sym,
  ap, ◌∙◌, subst, lookup, lookup-insert, lookup-insert_self, if◌then◌else◌, ◌==◌, string_eq, int_eq,
  beq_cases, Option-cases, arith,
}
use mmo_game.Bus.{
  Envelope, Filter, MemoryBus, accepted, context_error, waits, publish, subscribe, dispatch,
  dispatched, check_context, call_handler, count_consumed, cancel, unsubscribe,
}
use mmo_game.Bus.Delivery.{publish-cases}

-- What may happen next: a call of a method, a round of the loop, one of the three steps of a
-- goroutine, or the end of a caller's context.
pub data Step : MemoryBus → MemoryBus → Type 0 where
  published :
      {bus bus' : MemoryBus} (context_done : Bool) (ev : Envelope)
      → publish bus context_done ev ≡ accepted bus'
      → Step bus bus'
  subscribed : {bus : MemoryBus} (f : Filter) → Step bus (subscribe bus f).0
  unsubscribing : {bus : MemoryBus} (id : ℤ) → Step bus (unsubscribe bus id)
  handed_out : {bus : MemoryBus} → Step bus (dispatch bus)
  checked :
      {bus : MemoryBus} (before after : List (ℤ × Envelope)) (id : ℤ) (ev : Envelope)
      → bus.started ≡ before ++ (id, ev) ∷ after
      → Step bus (check_context (record bus { started = before ++ after }) id ev)
  called :
      {bus : MemoryBus} (before after : List (ℤ × Envelope)) (id : ℤ) (ev : Envelope)
      → bus.entered ≡ before ++ (id, ev) ∷ after
      → Step bus (call_handler (record bus { entered = before ++ after }) id ev)
  counted :
      {bus : MemoryBus} (before after : List (ℤ × Envelope)) (id : ℤ) (ev : Envelope)
      → bus.finishing ≡ before ++ (id, ev) ∷ after
      → Step bus (count_consumed (record bus { finishing = before ++ after }))
  context_ended : {bus : MemoryBus} (id : ℤ) → Step bus (cancel bus id)

pub data Steps : MemoryBus → MemoryBus → Type 0 where
  here : {bus : MemoryBus} → Steps bus bus
  next : {a b c : MemoryBus} → Step a b → Steps b c → Steps a c

abbrev one_if : Bool → ℕ
one_if true = 1
one_if false = 0

-- How many of the calls are of a subscriber's handler.
abbrev pub times : ℤ → List (ℤ × Envelope) → ℕ
times id [] = 0
times id ((i, ev) ∷ calls) = one_if (i == id) + times id calls

times-middle :
    (id i : ℤ) (ev : Envelope) (before after : List (ℤ × Envelope))
    → times id (before ++ (i, ev) ∷ after) ≡ one_if (i == id) + times id (before ++ after)
times-middle id i ev [] after = refl
times-middle id i ev ((j, x) ∷ before) after = omega (arith, times-middle id i ev before after)

-- The calls that a subscriber's handler has got, and those that nothing can keep from it: of
-- goroutines that are past their look at its context.
abbrev pub committed : ℤ → MemoryBus → ℕ
committed id bus = times id bus.handled + times id bus.entered

-- A subscriber whose context is done, and the calls that its handler gets.
abbrev pub IsSilent : ℤ → ℕ → MemoryBus → Type 0
IsSilent id n bus = (lookup id bus.cancelled ≡ some tt) × (committed id bus ≡ n)

IsSilent-same :
    (id : ℤ) (n : ℕ) (a b : MemoryBus)
    → a.cancelled ≡ b.cancelled
    → a.handled ≡ b.handled
    → a.entered ≡ b.entered
    → IsSilent id n a
    → IsSilent id n b
IsSilent-same id n a b c h e (s, t) = (rw (← c) s, rw (← h, ← e) t)

accepted_inj : (a b : MemoryBus) → accepted a ≡ accepted b → a ≡ b
accepted_inj a b h = ground arith

-- What publishing leaves as it is.
Publishes : MemoryBus → MemoryBus → Type 0
Publishes bus bus' =
    (bus.cancelled ≡ bus'.cancelled) × (bus.handled ≡ bus'.handled) × (bus.entered ≡ bus'.entered)

publish_lem :
    (bus bus' : MemoryBus) (context_done : Bool) (ev : Envelope)
    → publish bus context_done ev ≡ accepted bus'
    → Publishes bus bus'
unfolding Publishes
publish_lem bus bus' context_done ev h = elim (publish-cases bus context_done ev) [
  | inl (room, e) ↦ subst (Publishes bus) (accepted_inj _ bus' (sym e ∙ h)) (refl, refl, refl)
  | inr (inl (full, low, e)) ↦
      subst (Publishes bus) (accepted_inj _ bus' (sym e ∙ h)) (refl, refl, refl)
  | inr (inr (full, high, e)) ↦ absurd (not_accepted context_done (sym e ∙ h))
]
  where
    not_accepted : (d : Bool) → (if d then context_error else waits) ≢ accepted bus'
    not_accepted true k = cc
    not_accepted false k = cc

dispatch_lem :
    (bus : MemoryBus)
    → (bus.cancelled ≡ (dispatch bus).cancelled)
      × (bus.handled ≡ (dispatch bus).handled)
      × (bus.entered ≡ (dispatch bus).entered)
unfolding dispatch
dispatch_lem bus = taken bus.buffer refl
  where
    taken :
        (q : List Envelope)
        → bus.buffer ≡ q
        → (bus.cancelled ≡ (dispatched bus q).cancelled)
          × (bus.handled ≡ (dispatched bus q).handled)
          × (bus.entered ≡ (dispatched bus q).entered)
    taken [] e = (refl, refl, refl)
    taken (ev ∷ q) e = (refl, refl, refl)

IsSilent-cancel :
    (id : ℤ) (n : ℕ) (bus : MemoryBus) (i : ℤ) → IsSilent id n bus → IsSilent id n (cancel bus i)
unfolding cancel
IsSilent-cancel id n bus i (s, t) =
    (lookup-insert id i tt bus.cancelled ∙ kept (int_eq.test i id) (lookup id bus.cancelled) s, t)
  where
    kept : (b : Bool) (o : Option (Unit {0})) → o ≡ some tt → (if b then some tt else o) ≡ some tt
    kept true o h = refl
    kept false o h = h

IsSilent-unsubscribe :
    (id : ℤ) (n : ℕ) (bus : MemoryBus) (i : ℤ)
    → IsSilent id n bus
    → IsSilent id n (unsubscribe bus i)
unfolding unsubscribe cancel
IsSilent-unsubscribe id n bus i h = elim (Option-cases (lookup i bus.subscribers)) [
  | inl gone ↦ rw gone h
  | inr (f, there) ↦ rw there (IsSilent-cancel id n bus i h)
]

IsSilent-check :
    (id : ℤ) (n : ℕ) (bus : MemoryBus) (i : ℤ) (ev : Envelope)
    → IsSilent id n bus
    → IsSilent id n (check_context bus i ev)
unfolding check_context
IsSilent-check id n bus i ev (s, t) = elim (Option-cases (lookup i bus.cancelled)) [
  | inr (u, done) ↦ rw done (s, t)
  | inl live ↦ elim (beq_cases int_eq i id) [
    | inr f ↦ rw live (s, rw f (omega (arith, t)))
    | inl (e, same) ↦
        let there : lookup i bus.cancelled ≡ some tt =
          ap (λ (j : ℤ). lookup j bus.cancelled) same ∙ s in
        cc
  ]
]

IsSilent-call :
    (id : ℤ) (n : ℕ) (bus : MemoryBus) (before after : List (ℤ × Envelope)) (i : ℤ) (ev : Envelope)
    → bus.entered ≡ before ++ (i, ev) ∷ after
    → IsSilent id n bus
    → IsSilent id n (call_handler (record bus { entered = before ++ after }) i ev)
unfolding call_handler
IsSilent-call id n bus before after i ev e (s, t) =
    (s, omega (arith, t, ap (times id) e, times-middle id i ev before after))

IsSilent-step : (id : ℤ) (n : ℕ) {a b : MemoryBus} → Step a b → IsSilent id n a → IsSilent id n b
unfolding subscribe Publishes count_consumed
IsSilent-step id n {a} {b} (published context_done ev e) h =
    let (c, d, f) = publish_lem a b context_done ev e in IsSilent-same id n a b c d f h
IsSilent-step id n (subscribed f) h = h
IsSilent-step id n {a} (unsubscribing i) h = IsSilent-unsubscribe id n a i h
IsSilent-step id n {a} handed_out h =
    let (c, d, f) = dispatch_lem a in IsSilent-same id n a (dispatch a) c d f h
IsSilent-step id n {a} (checked before after i ev e) h =
    IsSilent-check id n (record a { started = before ++ after }) i ev h
IsSilent-step id n {a} (called before after i ev e) h = IsSilent-call id n a before after i ev e h
IsSilent-step id n (counted before after i ev e) h = h
IsSilent-step id n {a} (context_ended i) h = IsSilent-cancel id n a i h

IsSilent-steps : (id : ℤ) (n : ℕ) {a b : MemoryBus} → Steps a b → IsSilent id n a → IsSilent id n b
IsSilent-steps id n here h = h
IsSilent-steps id n (next s more) h = IsSilent-steps id n more (IsSilent-step id n s h)

-- Once a subscriber has unsubscribed, the calls that its handler gets, whatever happens next and
-- whatever goroutines had been started for it, are those of goroutines that had looked at its
-- context before: the calls that it has got and those that are still to come are together as many
-- as then.
pub unsubscribe-silent :
    (bus bus' : MemoryBus) (id : ℤ) (f : Filter)
    → lookup id bus.subscribers ≡ some f
    → Steps (unsubscribe bus id) bus'
    → times id bus'.handled + times id bus'.entered ≡ times id bus.handled + times id bus.entered
unfolding unsubscribe
unsubscribe-silent bus bus' id f there steps =
    (IsSilent-steps id (committed id bus) steps
      (rw there (lookup-insert_self id tt bus.cancelled, refl))).1
