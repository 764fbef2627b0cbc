-- ===== src/Client/Backoff.antt =====
-- frpc.py: the loop of `FRPClient.start`, which connects again and waits longer each time. Delays
-- are whole seconds.
use frp_python.Prelude.{
  ltb, if◌then◌else◌, All, ℕ, zero, suc, ◌+◌, ◌-◌, ◌*◌, ◌^◌, ◌≤◌, ◌<◌, min, Bool, true, false, ◌&&◌,
  ◌||◌, not, List, [], ◌∷◌, arith,
}

pub record Reconnect : Type 0 where
  pub reconnect : Bool
  pub max_retries : ℕ
  pub base_delay : ℕ
  pub max_delay : ℕ

-- What happens in a round: `_connect_and_run` is cancelled, or it ends or raises; then the client
-- may have been stopped, and the sleep may be cancelled.
pub data Round : Type 0 where
  cancelled : Round
  ended : Bool → Bool → Round

-- How often the client connects, the delays it waits, and whether the loop has ended.
pub record Trace : Type 0 where
  pub connections : ℕ
  pub delays : List ℕ
  pub over : Bool

-- `min(base_delay * 2 ** (retry_count - 1), max_delay)`
unfoldable pub delay : Reconnect → ℕ → ℕ
delay c retry_count = min (c.base_delay * 2 ^ (retry_count - 1)) c.max_delay

-- `max_retries > 0 and retry_count > max_retries`
abbrev pub gives_up : Reconnect → ℕ → Bool
gives_up c retry_count = ltb 0 c.max_retries && ltb c.max_retries retry_count

abbrev pub last_round : List ℕ → Trace
last_round delays = record { connections = 1; delays = delays; over = true }

abbrev pub one_more_round : ℕ → Trace → Trace
one_more_round d t = record {
  connections = suc t.connections;
  delays = d ∷ t.delays;
  over = t.over;
}

-- The loop, from a retry count on; without rounds it is still waiting for the next.
unfoldable pub start : Reconnect → ℕ → List Round → Trace
unfolding delay
start c n [] = record { connections = 0; delays = []; over = false }
start c n (cancelled ∷ rounds) = last_round []
start c n (ended stopped sleep_cancelled ∷ rounds) =
    let more = start c (suc n) rounds in
    if stopped || not c.reconnect
    then last_round []
    else if gives_up c (suc n)
    then last_round []
    else if sleep_cancelled
    then last_round (delay c (suc n) ∷ [])
    else one_more_round (delay c (suc n)) more

-- A delay is between the base and the limit, or is the limit where that is less than the base.
abbrev pub IsDelay : Reconnect → ℕ → Type 0
IsDelay c d = (d ≤ c.max_delay) × (min c.base_delay c.max_delay ≤ d)

pow_two_pos : (k : ℕ) → 0 < 2 ^ k
pow_two_pos zero = omega arith
pow_two_pos (suc k) = omega (arith, pow_two_pos k)

times_pos : (b p : ℕ) → 0 < p → b ≤ b * p
times_pos b zero h = absurd (omega arith)
times_pos b (suc p) h = omega arith

delay-IsDelay : (c : Reconnect) (n : ℕ) → IsDelay c (delay c n)
unfolding delay
delay-IsDelay c n =
    let p = 2 ^ (n - 1) in
    let above : c.base_delay ≤ c.base_delay * p = times_pos c.base_delay p (pow_two_pos (n - 1)) in
    (ground (arith, above), ground (arith, above))

start-IsDelay :
    (c : Reconnect) (n : ℕ) (rounds : List Round) → All (IsDelay c) (start c n rounds).delays
unfolding start
start-IsDelay c n [] = tt
start-IsDelay c n (cancelled ∷ rounds) = tt
start-IsDelay c n (ended s k ∷ rounds) =
    ground (arith, delay-IsDelay c (suc n), start-IsDelay c (suc n) rounds)

start-connections :
    (c : Reconnect) (n : ℕ) (rounds : List Round)
    → 0 < c.max_retries
    → n ≤ c.max_retries
    → (start c n rounds).connections + n ≤ suc c.max_retries
unfolding start
start-connections c n [] h k = omega arith
start-connections c n (cancelled ∷ rounds) h k = omega arith
start-connections c n (ended s z ∷ rounds) h k =
    ground (arith, start-connections c (suc n) rounds h)

-- With a limit on the retries the client connects at most once more than that, however long the
-- sessions between were up; and every delay is between the base and the limit for delays, or is
-- that limit where it is less than the base.
pub start_bounds :
    (c : Reconnect) (rounds : List Round)
    → 0 < c.max_retries
    → let t = start c 0 rounds in (t.connections ≤ suc c.max_retries) × All (IsDelay c) t.delays
start_bounds c rounds h =
    (omega (arith, start-connections c 0 rounds h (omega arith)), start-IsDelay c 0 rounds)
