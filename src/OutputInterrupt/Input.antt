-- ===== src/OutputInterrupt/Input.antt =====
-- `InterruptInput` of crates/et-core/src/output_interrupt.rs: commands of tmux's control mode in
-- client input that is cut anywhere.
use mathlib.Core.Bool.{or-true, or-false, or_assoc}
use et_rs.Prelude.{
  ◌==◌, if◌then◌else◌, length, All, length-append, ℕ, ◌+◌, ◌≤◌, ◌<◌, ◌≡◌, refl, sym, ap, ap₂, ◌∙◌,
  Bool, true, false, ◌&&◌, ◌||◌, not, List, [], ◌∷◌, ◌++◌, append-nil, append_assoc, arith,
}
use et_rs.OutputInterrupt.{any, newline}
use et_rs.OutputInterrupt.Command.{is_interrupt, command_requests_interrupt}

pub record InterruptInput : Type 0 where
  pub carry : List ℕ
  pub overlong : Bool

abbrev pub max_carry : ℕ
max_carry = 4096

abbrev pub is_line_end : ℕ → Bool
is_line_end b = b == 10 || b == 13

-- The command that the carry holds so far.
unfoldable pub carry_interrupts : InterruptInput → Bool
unfolding command_requests_interrupt
carry_interrupts s = not s.overlong && command_requests_interrupt s.carry

unfoldable pub carry_byte : InterruptInput → ℕ → InterruptInput
carry_byte s byte =
    if is_line_end byte
    then record { carry = []; overlong = false }
    else if s.overlong
    then s
    else if length s.carry == max_carry
    then record { carry = []; overlong = true }
    else record s { carry = s.carry ++ (byte ∷ []) }

-- The loop over the bytes: the state, and whether a command was seen.
unfoldable pub feed_loop : List ℕ → InterruptInput → Bool → InterruptInput × Bool
unfolding carry_interrupts carry_byte
feed_loop [] s interrupt = (s, interrupt)
feed_loop (byte ∷ bytes) s interrupt =
    feed_loop bytes (carry_byte s byte) (interrupt || (is_line_end byte && carry_interrupts s))

unfoldable pub feed : InterruptInput → List ℕ → InterruptInput × Bool
unfolding feed_loop carry_interrupts
feed s bytes =
    let (s', interrupt) = feed_loop bytes s (any is_interrupt bytes) in
    (s', interrupt || carry_interrupts s')

-- What the carry may be.
abbrev pub IsBoundedInput : InterruptInput → Type 0
IsBoundedInput s = length s.carry ≤ max_carry

carry_byte-IsBoundedInput :
    (s : InterruptInput) (b : ℕ) → IsBoundedInput s → IsBoundedInput (carry_byte s b)
unfolding carry_byte
carry_byte-IsBoundedInput s b h = ground (arith, length-append s.carry (b ∷ []))

feed_loop-IsBoundedInput :
    (bytes : List ℕ) (s : InterruptInput) (i : Bool)
    → IsBoundedInput s
    → IsBoundedInput (feed_loop bytes s i).0
unfolding feed_loop
feed_loop-IsBoundedInput [] s i h = h
feed_loop-IsBoundedInput (b ∷ bs) s i h =
    feed_loop-IsBoundedInput bs (carry_byte s b) (i || (is_line_end b && carry_interrupts s))
      (carry_byte-IsBoundedInput s b h)

-- However long the peer's lines are, no more than 4096 bytes of one are carried.
pub feed-IsBoundedInput :
    (s : InterruptInput) (bytes : List ℕ) → IsBoundedInput s → IsBoundedInput (feed s bytes).0
unfolding feed
feed-IsBoundedInput s bytes h = feed_loop-IsBoundedInput bytes s (any is_interrupt bytes) h

-- What has been seen already only adds to what a loop sees.
feed_loop_seen :
    (bytes : List ℕ) (s : InterruptInput) (i : Bool)
    → feed_loop bytes s i ≡ ((feed_loop bytes s false).0, i || (feed_loop bytes s false).1)
unfolding feed_loop
feed_loop_seen [] s i = ap (λ j. (s, j)) (sym (or-false i))
feed_loop_seen (b ∷ bs) s i =
    let now = is_line_end b && carry_interrupts s in
    feed_loop_seen bs (carry_byte s b) (i || now)
    ∙ ap₂ (λ t j. (t, j))
        (ap (λ (x : InterruptInput × Bool). x.0) (sym (feed_loop_seen bs (carry_byte s b) now)))
        (or_assoc i now (feed_loop bs (carry_byte s b) false).1
          ∙ ap (λ j. i || j)
              (ap (λ (x : InterruptInput × Bool). x.1)
                (sym (feed_loop_seen bs (carry_byte s b) now))))

feed_loop-append :
    (xs ys : List ℕ) (s : InterruptInput) (i : Bool)
    → feed_loop (xs ++ ys) s i ≡ feed_loop ys (feed_loop xs s i).0 (feed_loop xs s i).1
unfolding feed_loop
feed_loop-append [] ys s i = refl
feed_loop-append (b ∷ xs) ys s i =
    feed_loop-append xs ys (carry_byte s b) (i || (is_line_end b && carry_interrupts s))

-- `feed`, by what it has seen: bytes that interrupt, commands that have ended, and the open one.
feed_lem :
    (s : InterruptInput) (bytes : List ℕ)
    → feed s bytes ≡ (
      (feed_loop bytes s false).0,
      any is_interrupt bytes
          || ((feed_loop bytes s false).1 || carry_interrupts (feed_loop bytes s false).0),
    )
unfolding feed
feed_lem s bytes =
    let done = feed_loop bytes s false in
    ap (λ (x : InterruptInput × Bool). (x.0, x.1 || carry_interrupts x.0))
      (feed_loop_seen bytes s (any is_interrupt bytes))
    ∙ ap (λ j. (done.0, j)) (or_assoc (any is_interrupt bytes) done.1 (carry_interrupts done.0))

loop_both :
    (s : InterruptInput) (xs ys : List ℕ)
    → feed_loop (xs ++ ys) s false ≡ (
      (feed_loop ys (feed_loop xs s false).0 false).0,
      (feed_loop xs s false).1 || (feed_loop ys (feed_loop xs s false).0 false).1,
    )
loop_both s xs ys =
    feed_loop-append xs ys s false
    ∙ feed_loop_seen ys (feed_loop xs s false).0 (feed_loop xs s false).1

abbrev holding : List ℕ → InterruptInput
holding carry = record { carry = carry; overlong = false }

carry_byte_lem :
    (carry : List ℕ) (b : ℕ)
    → is_line_end b ≡ false
    → length carry < max_carry
    → carry_byte (holding carry) b ≡ holding (carry ++ (b ∷ []))
unfolding carry_byte
carry_byte_lem carry b inside room =
    let more : (length carry == max_carry) ≡ false = ground arith in rw (inside, more)

carry_line :
    (line carry : List ℕ) (i : Bool)
    → All (λ b. is_line_end b ≡ false) line
    → length carry + length line ≤ max_carry
    → (feed_loop line (holding carry) i).0 ≡ holding (carry ++ line)
unfolding feed_loop
carry_line [] carry i inside room = ap holding (sym (append-nil carry))
carry_line (b ∷ line) carry i inside room =
    let now = i || (is_line_end b && carry_interrupts (holding carry)) in
    let longer : length (carry ++ (b ∷ [])) ≡ length carry + 1 = length-append carry (b ∷ []) in
    ap (λ t. (feed_loop line t now).0) (carry_byte_lem carry b inside.0 (omega arith))
    ∙ carry_line line (carry ++ (b ∷ [])) now inside.1 (omega arith)
    ∙ ap holding (append_assoc carry (b ∷ []) line)

-- A newline starts a new carry.
newline_line :
    (s : InterruptInput) (line : List ℕ)
    → All (λ b. is_line_end b ≡ false) line
    → length line ≤ max_carry
    → (feed_loop (newline ∷ line) s false).0 ≡ holding line
unfolding feed_loop carry_byte
newline_line s line inside room =
    carry_line line [] (is_line_end newline && carry_interrupts s) inside (omega arith)

last_true : (a b : Bool) → (a || (b || true)) ≡ true
last_true true b = refl
last_true false b = or-true b

-- A command that asks for an interrupt is seen as soon as it is whole, before its line ends: behind
-- any input and a newline, in a line of at most 4096 bytes, and also where the line before it was
-- too long.
pub feed-command_requests_interrupt :
    (s : InterruptInput) (front line : List ℕ)
    → All (λ b. is_line_end b ≡ false) line
    → length line ≤ max_carry
    → command_requests_interrupt line ≡ true
    → (feed s (front ++ (newline ∷ line))).1 ≡ true
feed-command_requests_interrupt s front line inside room asks =
    let before = feed_loop front s false in
    let after = feed_loop (newline ∷ line) before.0 false in
    let fresh_line : after.0 ≡ holding line = newline_line before.0 line inside room in
    let seen : carry_interrupts after.0 ≡ true = rw fresh_line (unfold carry_interrupts in asks) in
    rw (feed_lem s (front ++ (newline ∷ line)), loop_both s front (newline ∷ line), seen)
      (last_true (any is_interrupt (front ++ (newline ∷ line))) (before.1 || after.1))
