-- ===== src/LogBuffer.antt =====
-- webadmin/api/log_buffer.py: `LogBuffer`, the last lines of a log and the queues of its readers.
-- A queue is unbounded, as `subscribe` makes it, so `put_nowait` never raises `QueueFull`.
mod Tests
use frp_python.Prelude.{
  ◌==◌, length, drop, length-append, length-drop, drop-drop, drop-append_le, Dict, lookup, insert,
  erase, ℕ, ◌+◌, ◌-◌, ◌≡◌, sym, ap, ◌∙◌, Bool, some, List, [], ◌∷◌, ◌++◌, map, append-nil,
  append_assoc, arith, nat_eq, string_eq, list_eq,
}
use frp_python.Py.Text.{Text, rstrip}

pub record LogBuffer : Type 0 where
  pub max_lines : ℕ
  pub buffer : List Text
  -- the lines that wait in each subscriber's queue, by subscriber
  pub subscribers : Dict ℕ (List Text)

-- `LogBuffer.__init__`
abbrev pub new_buffer : ℕ → LogBuffer
new_buffer max_lines = record { max_lines = max_lines; buffer = []; subscribers = [] }

abbrev pub is_newline : ℕ → Bool
is_newline c = c == 10

-- `line.rstrip("\n")`; a line that does not end in one is left as it is, and so by `rstrip`.
unfoldable pub display : Text → Text
display line = rstrip is_newline line

-- `deque(maxlen=n).append(x)`: the oldest entries make room.
unfoldable pub push : ℕ → List Text → Text → List Text
push n xs x = drop (length (xs ++ x ∷ []) - n) (xs ++ x ∷ [])

unfoldable pub broadcast : Text → Dict ℕ (List Text) → Dict ℕ (List Text)
broadcast x [] = []
broadcast x ((k, q) ∷ qs) = (k, q ++ x ∷ []) ∷ broadcast x qs

-- `append`
unfoldable pub append : Text → LogBuffer → LogBuffer
append line b = record b {
  buffer = push b.max_lines b.buffer (display line);
  subscribers = broadcast (display line) b.subscribers;
}

-- `get_history`
unfoldable pub get_history : LogBuffer → List Text
get_history b = b.buffer

-- `clear`
unfoldable pub clear : LogBuffer → LogBuffer
clear b = record b { buffer = [] }

-- `subscribe`, up to its first `await`, and its `finally`
unfoldable pub subscribe : ℕ → LogBuffer → LogBuffer
subscribe k b = record b { subscribers = insert k [] b.subscribers }

unfoldable pub unsubscribe : ℕ → LogBuffer → LogBuffer
unsubscribe k b = record b { subscribers = erase k b.subscribers }

abbrev pub append_all : List Text → LogBuffer → LogBuffer
append_all [] b = b
append_all (l ∷ ls) b = append_all ls (append l b)

abbrev pub last : ℕ → List Text → List Text
last n xs = drop (length xs - n) xs

push-last : (n : ℕ) (xs : List Text) (x : Text) → push n (last n xs) x ≡ last n (xs ++ x ∷ [])
unfolding push
push-last n xs x =
    let k = length xs - n in
    let e : drop k xs ++ x ∷ [] ≡ drop k (xs ++ x ∷ []) =
      sym (drop-append_le k xs (x ∷ []) (omega arith)) in
    let n_eq : k + (length (drop k (xs ++ x ∷ [])) - n) ≡ length (xs ++ x ∷ []) - n =
      omega (arith, length-drop k (xs ++ x ∷ []), length-append xs (x ∷ [])) in
    rw e (
      drop-drop k (length (drop k (xs ++ x ∷ [])) - n) (xs ++ x ∷ [])
      ∙ ap (λ i. drop i (xs ++ x ∷ [])) n_eq)

-- In a buffer that holds the last max_lines of some lines, after any number of appends the history
-- is the last max_lines of those lines and the appended ones, in order.
pub history-append_all :
    (lines old : List Text) (b : LogBuffer)
    → b.buffer ≡ last b.max_lines old
    → get_history (append_all lines b) ≡ last b.max_lines (old ++ map display lines)
unfolding get_history append
history-append_all [] old b h = rw append-nil h
history-append_all (l ∷ ls) old b h =
    history-append_all ls (old ++ display l ∷ []) (append l b)
      (ap (λ xs. push b.max_lines xs (display l)) h ∙ push-last b.max_lines old (display l))
    ∙ ap (last b.max_lines) (append_assoc old (display l ∷ []) (map display ls))

lookup-broadcast :
    (x : Text) (k : ℕ) (q : List Text) (qs : Dict ℕ (List Text))
    → lookup k qs ≡ some q
    → lookup k (broadcast x qs) ≡ some (q ++ x ∷ [])
unfolding lookup broadcast
lookup-broadcast x k q [] h = cc
lookup-broadcast x k q ((j, w) ∷ qs) h = ground (arith, lookup-broadcast x k q qs)

-- A subscriber that stays gets every line that is appended after it came, in order.
queue-append_all :
    (lines : List Text) (k : ℕ) (q : List Text) (b : LogBuffer)
    → lookup k b.subscribers ≡ some q
    → lookup k (append_all lines b).subscribers ≡ some (q ++ map display lines)
unfolding append
queue-append_all [] k q b h = rw append-nil h
queue-append_all (l ∷ ls) k q b h =
    queue-append_all ls k (q ++ display l ∷ []) (append l b)
      (lookup-broadcast (display l) k q b.subscribers h)
    ∙ ap some (append_assoc q (display l ∷ []) (map display ls))

-- `subscriber_count`
unfoldable pub subscriber_count : LogBuffer → ℕ
subscriber_count b = length b.subscribers
