-- ===== src/ControlLines/Cutting.antt =====
-- The lines of client input that crates/et-htm/src/framing.rs finds, in whatever pieces it arrives.
use et_rs.Prelude.{
  length, All, length-append, ok, err, ℕ, ◌+◌, ◌≤◌, ◌<◌, ◌≡◌, refl, sym, ap, ◌∙◌, true, false, List,
  [], ◌∷◌, ◌++◌, append-nil, append_assoc, arith,
}
use et_rs.OutputInterrupt.Command.{is_utf8}
use et_rs.ControlLines.{
  max_command, Lines, Fed, prepend, resume, end_line, push_byte, is_line_end, feed_byte, feed,
}

prepend-prepend :
    (ls ms : List (List ℕ)) (x : Fed) → prepend ls (prepend ms x) ≡ prepend (ls ++ ms) x
prepend-prepend ls ms (s, err e) = refl
prepend-prepend ls ms (s, ok more) = ap (λ l. (s, ok l)) (sym (append_assoc ls ms more))

prepend-resume :
    (ls : List (List ℕ)) (x : Fed) (g : Lines → Fed)
    → resume (prepend ls x) g ≡ prepend ls (resume x g)
prepend-resume ls (s, err e) g = refl
prepend-resume ls (s, ok more) g = sym (prepend-prepend ls more (g s))

resume-resume :
    (x : Fed) (f g : Lines → Fed) → resume (resume x f) g ≡ resume x (λ s. resume (f s) g)
resume-resume (s, err e) f g = refl
resume-resume (s, ok lines) f g = prepend-resume lines (f s) g

prepend_nil : (x : Fed) → prepend [] x ≡ x
prepend_nil (s, err e) = refl
prepend_nil (s, ok lines) = refl

-- Fed in two parts, the bytes give the lines, the state and the first error that they give at once:
-- after an error nothing more is read.
feed-resume :
    (xs ys : List ℕ) (s : Lines) → feed (xs ++ ys) s ≡ resume (feed xs s) (λ s'. feed ys s')
unfolding feed
feed-resume [] ys s = sym (prepend_nil (feed ys s))
feed-resume (x ∷ xs) ys s =
    (λ i. resume (feed_byte s x) (λ s'. feed-resume xs ys s' i))
    ∙ sym (resume-resume (feed_byte s x) (λ s'. feed xs s') (λ s'. feed ys s'))

abbrev pub IsShortLine : Lines → Type 0
IsShortLine s = length s.pending ≤ max_command

feed_byte-IsShortLine : (s : Lines) (b : ℕ) → IsShortLine s → IsShortLine (feed_byte s b).0
unfolding feed_byte end_line push_byte
feed_byte-IsShortLine s b h = ground (arith, length-append s.pending (b ∷ []))

resume-IsShortLine :
    (x : Fed) (g : Lines → Fed)
    → IsShortLine x.0
    → ((s : Lines) → IsShortLine s → IsShortLine (g s).0)
    → IsShortLine (resume x g).0
resume-IsShortLine (s, err e) g h hg = h
resume-IsShortLine (s, ok lines) g h hg = prepended (g s) (hg s h)
  where
    prepended : (y : Fed) → IsShortLine y.0 → IsShortLine (prepend lines y).0
    prepended (t, err e) k = k
    prepended (t, ok more) k = k

-- No more than 64 KiB of a line are held, whatever is fed and whatever fails.
pub feed-IsShortLine : (bytes : List ℕ) (s : Lines) → IsShortLine s → IsShortLine (feed bytes s).0
unfolding feed
feed-IsShortLine [] s h = h
feed-IsShortLine (b ∷ bytes) s h =
    resume-IsShortLine (feed_byte s b) (λ s'. feed bytes s') (feed_byte-IsShortLine s b h)
      (λ s' h'. feed-IsShortLine bytes s' h')

-- A line may end with a newline, or with a carriage return and a newline.
pub data LineEnd : Type 0 where
  newline return_newline : LineEnd

abbrev pub end_bytes : LineEnd → List ℕ
end_bytes newline = 10 ∷ []
end_bytes return_newline = 13 ∷ 10 ∷ []

abbrev pub text_bytes : List (List ℕ × LineEnd) → List ℕ
text_bytes [] = []
text_bytes ((line, e) ∷ text) = line ++ (end_bytes e ++ text_bytes text)

abbrev pub text_lines : List (List ℕ × LineEnd) → List (List ℕ)
text_lines [] = []
text_lines ((line, e) ∷ text) = line ∷ text_lines text

-- What a line holds: no byte that ends it, and not too many.
abbrev pub IsInner : List ℕ → Type 0
IsInner line = All (λ b. is_line_end b ≡ false) line × (length line ≤ max_command)

abbrev pub IsCommand : List ℕ × LineEnd → Type 0
IsCommand (line, e) = IsInner line × (is_utf8 line ≡ true)

abbrev pub waiting : List ℕ → Lines
waiting pending = record { pending = pending; cr = false }

feed_pushed :
    (b : ℕ) (bytes pending : List ℕ)
    → is_line_end b ≡ false
    → length pending < max_command
    → feed (b ∷ bytes) (waiting pending) ≡ feed bytes (waiting (pending ++ (b ∷ [])))
unfolding feed feed_byte push_byte
feed_pushed b bytes pending inside room =
    let pushed : feed_byte (waiting pending) b ≡ (waiting (pending ++ (b ∷ [])), ok []) =
      ground arith in
    ap (λ x. resume x (λ s'. feed bytes s')) pushed
    ∙ prepend_nil (feed bytes (waiting (pending ++ (b ∷ []))))

feed_inner :
    (line rest pending : List ℕ)
    → All (λ b. is_line_end b ≡ false) line
    → length pending + length line ≤ max_command
    → feed (line ++ rest) (waiting pending) ≡ feed rest (waiting (pending ++ line))
feed_inner [] rest pending plain room = ap (λ p. feed rest (waiting p)) (sym (append-nil pending))
feed_inner (b ∷ line) rest pending plain room =
    feed_pushed b (line ++ rest) pending plain.0 (omega (arith, room))
    ∙ feed_inner line rest (pending ++ (b ∷ [])) plain.1
        (omega (arith, length-append pending (b ∷ []), room))
    ∙ ap (λ p. feed rest (waiting p)) (append_assoc pending (b ∷ []) line)

feed_end :
    (e : LineEnd) (line rest : List ℕ)
    → is_utf8 line ≡ true
    → feed (end_bytes e ++ rest) (waiting line) ≡ prepend (line ∷ []) (feed rest (waiting []))
unfolding feed feed_byte end_line
feed_end newline line rest valid = rw valid refl
feed_end return_newline line rest valid =
    rw valid (ap (prepend (line ∷ [])) (prepend_nil (feed rest (waiting []))))

feed_text :
    (text : List (List ℕ × LineEnd)) (tail : List ℕ)
    → All IsCommand text
    → IsInner tail
    → feed (text_bytes text ++ tail) (waiting []) ≡ (waiting tail, ok (text_lines text))
feed_text [] tail valid inner =
    ap (λ bytes. feed bytes (waiting [])) (sym (append-nil tail))
    ∙ feed_inner tail [] [] inner.0 (omega (arith, inner.1))
    ∙ (unfold feed in refl)
feed_text ((line, e) ∷ text) tail valid inner =
    let rest = text_bytes text ++ tail in
    ap (λ bytes. feed bytes (waiting []))
      (append_assoc line (end_bytes e ++ text_bytes text) tail
        ∙ ap (λ bytes. line ++ bytes) (append_assoc (end_bytes e) (text_bytes text) tail))
    ∙ feed_inner line (end_bytes e ++ rest) [] valid.0.0.0 (omega (arith, valid.0.0.1))
    ∙ feed_end e line rest valid.0.1
    ∙ ap (prepend (line ∷ [])) (feed_text text tail valid.1 inner)

-- The calls of `feed` for the pieces of a stream, while none of them fails.
abbrev pub feed_pieces : List (List ℕ) → Lines → Fed
feed_pieces [] s = (s, ok [])
feed_pieces (piece ∷ pieces) s = resume (feed piece s) (λ s'. feed_pieces pieces s')

abbrev pub joined : List (List ℕ) → List ℕ
joined [] = []
joined (piece ∷ pieces) = piece ++ joined pieces

feed_pieces-joined :
    (pieces : List (List ℕ)) (s : Lines) → feed_pieces pieces s ≡ feed (joined pieces) s
feed_pieces-joined [] s = unfold feed in refl
feed_pieces-joined (piece ∷ pieces) s =
    (λ i. resume (feed piece s) (λ s'. feed_pieces-joined pieces s' i))
    ∙ sym (feed-resume piece (joined pieces) s)

-- Lines of UTF-8, none longer than 64 KiB, each ended by a newline or by a carriage return and a
-- newline, are given exactly and in order, in whatever pieces they arrive, also where a piece ends
-- between the two; what has arrived of a further line waits.
pub feed_pieces-text_bytes :
    (text : List (List ℕ × LineEnd)) (tail : List ℕ) (pieces : List (List ℕ))
    → All IsCommand text
    → IsInner tail
    → joined pieces ≡ text_bytes text ++ tail
    → feed_pieces pieces (waiting []) ≡ (waiting tail, ok (text_lines text))
feed_pieces-text_bytes text tail pieces valid inner whole =
    feed_pieces-joined pieces (waiting [])
    ∙ ap (λ bytes. feed bytes (waiting [])) whole
    ∙ feed_text text tail valid inner
