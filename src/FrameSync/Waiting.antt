-- ===== src/FrameSync/Waiting.antt =====
-- Waiting for the other side: it ends, and with the frame that was waited for.
use bionic_vulkan_bridge.Prelude.{
  ℕ, ◌+◌, ◌*◌, ◌≤◌, ◌≡◌, ◌≢◌, refl, ap, arith, Bool, true, false, ◌||◌, Option, none, some, List,
  [], ◌∷◌, Result, ok, err, eproto,
}
use bionic_vulkan_bridge.Futex.{
  Clock, Wait, deadline_from_timeout, futex_wait_until, is_last, wait_status,
}
use bionic_vulkan_bridge.FrameSync.{
  Control, peer_failure, wait_loop, wait_sequence, wait_producer, validate,
}
use bionic_vulkan_bridge.FrameSync.Order.{IsOrdered}

-- Some listed wait finds the clock broken or the deadline reached.
unfoldable pub any_last : ℕ → List (Wait Control) → Bool
any_last deadline_ns [] = false
any_last deadline_ns (w ∷ ws) = is_last deadline_ns w || any_last deadline_ns ws

wait_loop-ends :
    (word : Control → ℕ) (after deadline : ℕ) (c : Control) (ws : List (Wait Control))
    → any_last deadline ws ≡ true
    → wait_loop word after deadline c ws ≢ none
unfolding any_last wait_loop futex_wait_until
wait_loop-ends word after deadline c [] last = absurd (cc)
wait_loop-ends word after deadline c (w ∷ ws) last =
    ground (arith, wait_loop-ends word after deadline w.memory ws)

-- A wait for either side returns, whatever the other process does, once the clock fails or reaches
-- the deadline at one of the futex waits.
pub wait_sequence-ends :
    (word : Control → ℕ) (c : Control) (after timeout started : ℕ) (ws : List (Wait Control))
    → any_last (started + timeout * 1000000) ws ≡ true
    → wait_sequence word c after timeout (some started) ws ≢ none
unfolding wait_sequence deadline_from_timeout
wait_sequence-ends word c after timeout started ws last =
    ground (arith, wait_loop-ends word after (started + timeout * 1000000) c ws last)

-- The page in each moment that the wait sees it, where no futex call fails with EPROTO.
abbrev pub Throughout {ℓ} : (Control → Type ℓ) → Control → List (Wait Control) → Type ℓ
Throughout P c [] = P c
Throughout P c (w ∷ ws) = P c × (wait_status w.result ≢ err eproto) × Throughout P w.memory ws

-- The frame `n` has been produced, and no other since, and neither side has published EPROTO.
abbrev pub HasProduced : ℕ → Control → Type 0
HasProduced n c = IsOrdered c × (c.producer_sequence ≡ n) × (peer_failure c ≢ err eproto)

-- The frames up to `n` have been consumed, and no other since, and neither side has published EPROTO.
abbrev pub HasConsumed : ℕ → Control → Type 0
HasConsumed n c = IsOrdered c × (c.consumer_sequence ≡ n) × (peer_failure c ≢ err eproto)

-- If the wait is over, it gives this frame or an error other than EPROTO.
abbrev pub YieldsOnly : ℕ → Option (Result ℕ) → Type 0
YieldsOnly n none = Unit
YieldsOnly n (some (ok s)) = s ≡ n
YieldsOnly n (some (err e)) = e ≢ eproto

-- The same in two facts, for the induction.
abbrev Yields : ℕ → Option (Result ℕ) → Type 0
Yields n r = ((s : ℕ) → r ≡ some (ok s) → s ≡ n) × (r ≢ some (err eproto))

Yields-YieldsOnly : (n : ℕ) (r : Option (Result ℕ)) → Yields n r → YieldsOnly n r
Yields-YieldsOnly n none y = tt
Yields-YieldsOnly n (some (ok s)) y = y.0 s refl
Yields-YieldsOnly n (some (err e)) y = λ same. y.1 (ap (λ e. some (err e)) same)

near_producer :
    (n : ℕ) (c : Control)
    → HasConsumed n c
    → (n ≤ c.producer_sequence) × (c.producer_sequence ≤ n + 1) × (peer_failure c ≢ err eproto)
near_producer n c h = (omega arith, omega arith, h.2)

module _ (P : Control → Type 0) (word : Control → ℕ) (n deadline : ℕ)
    (near : (c : Control)
      → P c
      → (n ≤ word c) × (word c ≤ n + 1) × (peer_failure c ≢ err eproto)) where
  wait_loop-Yields :
      (c : Control) (ws : List (Wait Control))
      → Throughout P c ws
      → Yields (n + 1) (wait_loop word n deadline c ws)
  unfolding wait_loop futex_wait_until
  wait_loop-Yields c [] p = (λ s e. ground (arith, near c p), ground (arith, near c p))
  wait_loop-Yields c (w ∷ ws) p =
      let rest = wait_loop-Yields w.memory ws p.2 in
      (λ s e. ground (arith, near c p.0, rest.0 s), ground (arith, near c p.0, p.1, rest.1))

  -- The same of the whole wait, whatever the clock said at its start.
  wait_sequence-Yields :
      (c : Control) (timeout : ℕ) (started : Clock) (ws : List (Wait Control))
      → ((d : ℕ) → Yields (n + 1) (wait_loop word n d c ws))
      → Yields (n + 1) (wait_sequence word c n timeout started ws)
  unfolding wait_sequence deadline_from_timeout
  wait_sequence-Yields c timeout none ws loop = (λ s e. ground arith, ground arith)
  wait_sequence-Yields c timeout (some now) ws loop =
      let there = loop (now + timeout * 1000000) in
      (λ s e. ground (arith, there.0 s), ground (arith, there.1))

-- The consumer that has published frame n and waits for the producer's next gets n + 1 if its wait
-- succeeds, as long as it publishes nothing meanwhile. If neither side has published EPROTO and no futex
-- call failed with it, the wait does not return it.
pub wait_producer-Yields :
    (c : Control) (n timeout : ℕ) (started : Clock) (ws : List (Wait Control))
    → Throughout (HasConsumed n) c ws
    → YieldsOnly (n + 1) (wait_producer c n timeout started ws)
unfolding wait_producer validate
wait_producer-Yields c n timeout started ws p =
    let near = λ (c : Control) (h : HasConsumed n c). near_producer n c h in
    let whole =
      wait_sequence-Yields (HasConsumed n) (λ c. c.producer_sequence) n 0 near c timeout started ws
        (λ d. wait_loop-Yields (HasConsumed n) (λ c. c.producer_sequence) n d near c ws p) in
    Yields-YieldsOnly (n + 1) (wait_producer c n timeout started ws)
      (λ s e. ground (arith, whole.0 s), ground (arith, whole.1))
