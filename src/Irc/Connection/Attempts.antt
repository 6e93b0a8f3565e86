-- ===== src/Irc/Connection/Attempts.antt =====
-- How often connect tries the first endpoint.
use ash_bot.Prelude.{ℕ, zero, suc, ◌+◌, ◌<◌, ◌≡◌, refl, Bool, true, false, none, some, arith}
use ash_bot.Irc.Connection.{Connection, connect, connect_loop}

loop-fails :
    (fuel : ℕ) (connects : ℕ → Bool) (i : ℕ)
    → ((j : ℕ) → connects j ≡ false)
    → connect_loop fuel connects i ≡ none
unfolding connect_loop
loop-fails zero connects i fails = refl
loop-fails (suc fuel) connects i fails = rw (fails i) (loop-fails fuel connects (suc i) fails)

loop-succeeds :
    (k : ℕ) (connects : ℕ → Bool) (i : ℕ)
    → ((j : ℕ) → j < k → connects (i + j) ≡ false)
    → connects (i + k) ≡ true
    → connect_loop (suc k) connects i ≡ some true
unfolding connect_loop
loop-succeeds zero connects i fails ok =
    (let here : i + 0 ≡ i = omega arith in rw (rw here at ok) refl)
loop-succeeds (suc k) connects i fails ok =
    (let here : i + 0 ≡ i = omega arith in
      let first : connects i ≡ false = rw here at (fails 0 (omega arith)) in
      let last : i + suc k ≡ suc i + k = omega arith in
      rw first (loop-succeeds k connects (suc i) later (rw last at ok)))
  where
    later : (j : ℕ) → j < k → connects (suc i + j) ≡ false
    later j h =
        (let next : i + suc j ≡ suc i + j = omega arith in rw next at (fails (suc j) (omega arith)))

module _ (endpoints : ℕ) (connects : ℕ → Bool) (s : Connection) where
  -- A server that refuses every attempt is tried for ever, however many endpoints its name has:
  -- connect does not return, and never tries the second.
  pub connect-endless :
      (fuel : ℕ)
      → s.connected ≡ false
      → ((j : ℕ) → connects j ≡ false)
      → connect fuel (some (suc endpoints)) connects s ≡ none
  unfolding connect
  connect-endless fuel down fails = rw (down, connect, loop-fails fuel connects 0 fails)

  -- connect returns a connection after the first attempt that succeeds.
  pub connect-first :
      (k : ℕ)
      → s.connected ≡ false
      → ((j : ℕ) → j < k → connects j ≡ false)
      → connects k ≡ true
      → connect (suc k) (some (suc endpoints)) connects s
        ≡ some (true, record s { connected = true })
  unfolding connect
  connect-first k down fails ok =
      (let loops : connect_loop (suc k) connects 0 ≡ some true =
          loop-succeeds k connects 0
            (λ j h. (let same : 0 + j ≡ j = omega arith in rw same (fails j h)))
            (let same : 0 + k ≡ k = omega arith in rw same ok) in
        rw (down, connect, loops) refl)
