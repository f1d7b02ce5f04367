-- ===== src/Server/Consumer/Runs.antt =====
-- Every run of the loop that subscribes to the events: its connections and its delays.
use Prim.Native.Nat.{min}
use users.Prelude.{
  ℕ, suc, ◌+◌, ◌*◌, ◌^◌, ◌≤◌, ◌≡◌, refl, ◌∙◌, Bool, true, false, ◌&&◌, List, [], ◌∷◌, ◌++◌, length,
  All, arith, if◌then◌else◌, Bool-cases, inl, inr, ap,
}
use users.Errors.{Result, ok, err}
use users.Server.Consumer.{
  Attempt, Event, attempted, elapsed, cancelled, Loop, Phase, trying, waiting, consuming, returned,
  step, step_from, after_subscribe, subscribe, start_consumer, close_unless, unsubscribe, start,
  run, next_group_membership_retry_delay,
}

-- The connections that a loop needs: one, while it consumes.
abbrev pub needed : Phase → ℕ
needed consuming = 1
needed _ = 0

pub record IsSound (s : Loop) : Type 0 where
  pub connections : s.connections ≡ needed s.phase
  pub delay_low : 1 ≤ s.retry_delay
  pub delay_high : s.retry_delay ≤ 30

abbrev pub is_ok : Result (Unit {0}) → Bool
is_ok (ok u) = true
is_ok (err e) = false

-- The attempt reaches the broker and subscribes.
abbrev pub up : Attempt → Bool
up a = is_ok a.connect && is_ok a.jet_stream && is_ok a.subscribe

-- An attempt leaves a connection open exactly where it succeeds.
subscribe_connections :
    (a : Attempt) (s : Loop)
    → s.connections ≡ 0
    → after_subscribe s (subscribe a s.connections) ≡ (
        if up a
        then record s { phase = consuming; connections = 1 }
        else record s { phase = waiting; connections = 0 })
unfolding after_subscribe subscribe start_consumer close_unless
subscribe_connections a s h = ground (arith, h)

delay_bounds :
    (d : ℕ)
    → 1 ≤ d
    → (1 ≤ next_group_membership_retry_delay d) × (next_group_membership_retry_delay d ≤ 30)
unfolding next_group_membership_retry_delay
delay_bounds d h = (ground (arith, h), ground (arith, h))

step_from-IsSound :
    (phase : Phase) (event : Event) (s : Loop)
    → s.phase ≡ phase
    → IsSound s
    → IsSound (step_from phase event s)
unfolding step_from unsubscribe
step_from-IsSound trying (cancelled answer) s h sound = (record {
  connections = sound.connections ∙ rw h refl;
  delay_low = sound.delay_low;
  delay_high = sound.delay_high;
})
step_from-IsSound trying (attempted a) s h sound =
    rw (subscribe_connections a s (sound.connections ∙ rw h refl)) (elim (Bool-cases (up a)) [
      | inl e ↦ rw e (
          (record {
            connections = refl;
            delay_low = sound.delay_low;
            delay_high = sound.delay_high;
          }))
      | inr e ↦ rw e (
          (record {
            connections = refl;
            delay_low = sound.delay_low;
            delay_high = sound.delay_high;
          }))
    ])
step_from-IsSound trying elapsed s h sound = sound
step_from-IsSound waiting (cancelled answer) s h sound = (record {
  connections = sound.connections ∙ rw h refl;
  delay_low = sound.delay_low;
  delay_high = sound.delay_high;
})
step_from-IsSound waiting (attempted a) s h sound = sound
step_from-IsSound waiting elapsed s h sound =
    let next = delay_bounds s.retry_delay sound.delay_low in
    record { connections = sound.connections ∙ rw h refl; delay_low = next.0; delay_high = next.1 }
step_from-IsSound consuming (cancelled answer) s h sound =
    let open_ : s.connections ≡ 1 = sound.connections ∙ rw h refl in
    (record {
      connections = omega (arith, open_);
      delay_low = sound.delay_low;
      delay_high = sound.delay_high;
    })
step_from-IsSound consuming (attempted a) s h sound = sound
step_from-IsSound consuming elapsed s h sound = sound
step_from-IsSound returned event s h sound = sound

run-IsSound_from : (events : List Event) (s : Loop) → IsSound s → IsSound (run events s)
unfolding run step
run-IsSound_from [] s h = h
run-IsSound_from (event ∷ events) s h =
    run-IsSound_from events (step event s) (step_from-IsSound s.phase event s refl h)

-- Whatever the broker answers and whenever the context ends, one connection is open while the loop
-- consumes and none otherwise, also after it has returned, and the delay between two attempts stays
-- between 1 and 30 seconds.
pub run-IsSound : (events : List Event) → IsSound (run events start)
run-IsSound events =
    run-IsSound_from events start
      (record { connections = refl; delay_low = omega arith; delay_high = omega arith })

-- Attempts that fail, each followed by the end of its delay.
abbrev pub retried : List Attempt → List Event
retried [] = []
retried (a ∷ attempts) = attempted a ∷ elapsed ∷ retried attempts

abbrev pub trying_after : ℕ → Loop
trying_after delay = record { phase = trying; retry_delay = delay; connections = 0 }

-- The delay doubles up to its bound.
abbrev pub delay_after : ℕ → ℕ
delay_after failures = min (2 ^ failures) 30

pow_suc : (k : ℕ) → 2 ^ suc k ≡ 2 ^ k * 2
pow_suc k = omega arith

step_retry :
    (a : Attempt) (k : ℕ)
    → up a ≡ false
    → step elapsed (step (attempted a) (trying_after (delay_after k)))
      ≡ trying_after (delay_after (suc k))
unfolding step step_from next_group_membership_retry_delay
step_retry a k h =
    rw (subscribe_connections a (trying_after (delay_after k)) refl, h)
      (ap trying_after (ground (arith, pow_suc k)))

run-retried_from :
    (attempts : List Attempt) (a : Attempt) (k : ℕ)
    → All (λ b. up b ≡ false) attempts
    → up a ≡ true
    → run (retried attempts ++ attempted a ∷ []) (trying_after (delay_after k)) ≡ record {
      phase = consuming;
      retry_delay = delay_after (k + length attempts);
      connections = 1;
    }
unfolding run step step_from
run-retried_from [] a k failed h =
    let e : k + 0 ≡ k = omega arith in
    rw (subscribe_connections a (trying_after (delay_after k)) refl, h, e) refl
run-retried_from (b ∷ attempts) a k failed h =
    let e : k + suc (length attempts) ≡ suc k + length attempts = omega arith in
    ap (run (retried attempts ++ attempted a ∷ [])) (step_retry b k failed.0)
    ∙ run-retried_from attempts a (suc k) failed.1 h
    ∙ rw e refl

-- After any number of failed attempts, each followed by its delay, the first attempt that connects and
-- subscribes makes the loop consume over one connection; after n failures the delay is the smaller of
-- 2 ^ n and 30 seconds.
pub run-retried :
    (attempts : List Attempt) (a : Attempt)
    → All (λ b. up b ≡ false) attempts
    → up a ≡ true
    → run (retried attempts ++ attempted a ∷ []) start
      ≡ record { phase = consuming; retry_delay = min (2 ^ length attempts) 30; connections = 1 }
run-retried attempts a failed h =
    let e : 0 + length attempts ≡ length attempts = omega arith in
    run-retried_from attempts a 0 failed h ∙ rw e refl
