-- ===== src/Recovery/Wire.antt =====
-- Two dialogues of crates/et-net/src/connection_recovery.rs on a socket that holds at most
-- `capacity` bytes in each direction. A write ends when the socket has room for the frame, or when
-- the peer is reading it. The bytes are those of the messages, without the eight of a frame's
-- length.
use et_rs.Prelude.{length, Result, ok, ℕ, ◌+◌, ◌≤◌, Option, none, List, [], ◌∷◌, ◌++◌}
use et_rs.Recovery.Calls.{IoError, Dialog, call, write, read}

pub data Net (A : Type 0) : Type 0 where
  net : Dialog A → Dialog A → List (List ℕ) → List (List ℕ) → Net A

abbrev pub queued : List (List ℕ) → ℕ
queued [] = 0
queued (frame ∷ frames) = length frame + queued frames

-- The client's dialogue stands first, and the frames on the way to the server before those on the
-- way to the client.
pub data Step {A : Type 0} (capacity : ℕ) : Net A → Net A → Type 0 where
  client_calls :
      (k : Option IoError → Dialog A) (server : Dialog A) (up down : List (List ℕ))
      → Step capacity (net (call k) server up down) (net (k none) server up down)
  server_calls :
      (k : Option IoError → Dialog A) (client : Dialog A) (up down : List (List ℕ))
      → Step capacity (net client (call k) up down) (net client (k none) up down)
  client_writes :
      (frame : List ℕ) (k : Option IoError → Dialog A) (server : Dialog A) (up down : List (List ℕ))
      → queued up + length frame ≤ capacity
      → Step capacity
          (net (write frame k) server up down)
          (net (k none) server (up ++ (frame ∷ [])) down)
  server_writes :
      (frame : List ℕ) (k : Option IoError → Dialog A) (client : Dialog A) (up down : List (List ℕ))
      → queued down + length frame ≤ capacity
      → Step capacity
          (net client (write frame k) up down)
          (net client (k none) up (down ++ (frame ∷ [])))
  client_reads :
      (frame : List ℕ) (k : Result (List ℕ) IoError → Dialog A) (server : Dialog A)
      (up down : List (List ℕ))
      → Step capacity (net (read k) server up (frame ∷ down)) (net (k (ok frame)) server up down)
  server_reads :
      (frame : List ℕ) (k : Result (List ℕ) IoError → Dialog A) (client : Dialog A)
      (up down : List (List ℕ))
      → Step capacity (net client (read k) (frame ∷ up) down) (net client (k (ok frame)) up down)
  client_hands :
      (frame : List ℕ) (k : Option IoError → Dialog A) (k' : Result (List ℕ) IoError → Dialog A)
      (down : List (List ℕ))
      → Step capacity (net (write frame k) (read k') [] down) (net (k none) (k' (ok frame)) [] down)
  server_hands :
      (frame : List ℕ) (k : Option IoError → Dialog A) (k' : Result (List ℕ) IoError → Dialog A)
      (up : List (List ℕ))
      → Step capacity (net (read k') (write frame k) up []) (net (k' (ok frame)) (k none) up [])

pub data Reach {A : Type 0} (capacity : ℕ) (t : Net A) : Net A → Type 0 where
  here : Reach capacity t t
  next : {s s' : Net A} → Step capacity s s' → Reach capacity t s' → Reach capacity t s

-- `Reaches capacity s t`: the pair can go from `s` to `t`.
abbrev pub Reaches : {A : Type 0} → ℕ → Net A → Net A → Type 0
Reaches capacity s t = Reach capacity t s

pub Reach-trans :
    {A : Type 0} (capacity : ℕ) {t u s : Net A}
    → Reaches capacity s t
    → Reaches capacity t u
    → Reaches capacity s u
Reach-trans capacity here r = r
Reach-trans capacity (next step rest) r = next step (Reach-trans capacity rest r)
