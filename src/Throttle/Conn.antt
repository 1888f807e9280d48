-- ===== src/Throttle/Conn.antt =====
-- capture/throttle.go: the rate limit on connections. A connection says of each `Write`, by what it
-- was given before, how many bytes it takes and whether it fails; the shared rate may be another in
-- each round. Lengths and times, in nanoseconds, have no upper bound here.
use sniffy.Common.{
  ℕ, zero, suc, ◌+◌, ◌*◌, ◌/◌, ◌^◌, ◌≤◌, ◌≡◌, Bool, true, false, not, ◌||◌, [], ◌∷◌, ◌++◌, Option,
  none, some, ltb, ◌==◌, length, take, drop, if◌then◌else◌,
}
use sniffy.Common.Int.{ℤ, pos, is_pos, pos_part}
use sniffy.Common.Bytes.{Bytes}

abbrev pub min_chunk : ℕ
min_chunk = 1024

abbrev pub max_chunk : ℕ
max_chunk = 16 * 1024

-- `SetThrottle`: the rate that is stored.
unfoldable pub set_throttle : Bool → ℤ → ℤ
set_throttle enabled rate =
    if not enabled then pos 0 else if not (is_pos rate) then pos (128 * 1024) else rate

-- `throttleChunkSize` of a rate that is not negative.
unfoldable pub throttle_chunk_size : ℕ → ℕ
throttle_chunk_size rate =
    let low = if ltb (rate / 20) min_chunk then min_chunk else rate / 20 in
    if ltb max_chunk low then max_chunk else low

-- `throttleSleep`.
unfoldable pub throttle_sleep : ℕ → ℕ → ℕ
throttle_sleep n rate = if n == 0 || rate == 0 then 0 else n * 10 ^ 9 / rate

pub data WriteError : Type 0 where
  conn_error short_write : WriteError

-- By the bytes that a connection has taken and those it is given: how many it takes, and whether it
-- reports an error.
abbrev pub Connection : Type 0
Connection = Bytes → Bytes → ℕ × Bool

pub record Written : Type 0 where
  -- What the connection has taken, in all.
  pub sent : Bytes
  pub total : ℕ
  pub slept : ℕ
  pub error : Option WriteError

unfoldable pub error_of : Bool → Option WriteError
error_of true = some conn_error
error_of false = none

-- How long a chunk is.
unfoldable pub chunk_of : ℕ → Bytes → ℕ
unfolding throttle_chunk_size
chunk_of rate p =
    if ltb (length p) (throttle_chunk_size rate) then length p else throttle_chunk_size rate

-- The loop of `Write`, on fuel, with the number of the round.
unfoldable pub write_loop : (ℕ → ℤ) → Connection → ℕ → ℕ → Bytes → Written → Written
unfolding error_of
write_loop rate conn zero k p w = w
write_loop rate conn (suc f) k [] w = w
write_loop rate conn (suc f) k (b ∷ p) w =
    let now = pos_part (rate k) in
    let whole = conn w.sent (b ∷ p) in
    let chunk = take (chunk_of now (b ∷ p)) (b ∷ p) in
    let part = conn w.sent chunk in
    let w' : Written = record {
      sent = w.sent ++ take part.0 chunk;
      total = w.total + part.0;
      slept = w.slept + throttle_sleep part.0 now;
      error = none;
    } in
    let onward = write_loop rate conn f (k + 1) (drop part.0 (b ∷ p)) w' in
    if not (is_pos (rate k))
    then record w {
      sent = w.sent ++ take whole.0 (b ∷ p);
      total = w.total + whole.0;
      error = error_of whole.1;
    }
    else if part.1
    then record w' { error = some conn_error }
    else if part.0 == 0
    then record w' { error = some short_write }
    else onward

-- `Write`; each round takes at least one byte.
unfoldable pub write : (ℕ → ℤ) → Connection → Bytes → Bytes → Written
write rate conn sent p =
    write_loop rate conn (length p) 0 p (record { sent = sent; total = 0; slept = 0; error = none })

-- The contract of `io.Writer`: no more bytes are taken than are given, and fewer only with an error.
pub record IsWriter (conn : Connection) : Type 0 where
  pub fits : (sent p : Bytes) → (conn sent p).0 ≤ length p
  pub complete : (sent p : Bytes) → (conn sent p).1 ≡ false → (conn sent p).0 ≡ length p
