-- ===== src/Examples/Multiplexer.antt =====
-- Windows of the multiplexer, and what its clients send, at concrete values.
use et_rs.OutputInterrupt.Command.{is_utf8}
use mathlib.Core.List.{Perm}
use et_rs.Prelude.{
  length, ok, ℕ, ◌+◌, ◌*◌, ◌/◌, ◌≤◌, ◌≡◌, refl, true, false, some, List, [], ◌∷◌, ◌++◌, arith,
}
use et_rs.Crypto.Proof.{codes}
use et_rs.Layout.{Floats, Layout, pane, split, nil, cons, panes, contains, insert, remove}
use et_rs.Layout.Shape.{IsLayout, IsRest, insert-remove-IsLayout}
use et_rs.Layout.Panes.{without, remaining, panes-remove, panes-insert}
use et_rs.ControlLines.Cutting.{
  LineEnd, newline, return_newline, waiting, feed_pieces, feed_pieces-text_bytes,
}

abbrev toy_floats : Floats
toy_floats = record {
  zero_weight = 0;
  half = 50;
  halve = λ s. s / 2;
  add = λ s t. s + t;
  divide = λ s t. s * 100 / t;
  share = λ n. 100 / n;
}

-- Pane 1 beside panes 2 and 3, of which one is above the other.
abbrev split_window : Layout
split_window =
    split true
      (cons (pane 1) (cons (split false (cons (pane 2) (cons (pane 3) nil)) (50 ∷ 50 ∷ [])) nil))
      (50 ∷ 50 ∷ [])

split_window-IsLayout : IsLayout split_window
split_window-IsLayout = (refl, omega arith, (tt, ((refl, omega arith, (tt, (tt, tt))), tt)))

contains_2 : contains 2 split_window ≡ true
unfolding contains
contains_2 = refl

panes-remove_example : remaining (remove toy_floats 3 split_window) ≡ without 3 (panes split_window)
panes-remove_example = panes-remove toy_floats 3 split_window (split_window-IsLayout)

panes-insert_example :
    Perm (panes (insert toy_floats 2 4 false (some true) split_window)) (4 ∷ panes split_window)
panes-insert_example = panes-insert toy_floats 2 4 false (some true) split_window contains_2

insert-remove-IsLayout_example :
    (1 ≤ length (panes split_window))
    × IsLayout (insert toy_floats 2 4 false (some true) split_window)
    × IsRest (remove toy_floats 4 split_window)
insert-remove-IsLayout_example =
    insert-remove-IsLayout toy_floats 2 4 false (some true) split_window (split_window-IsLayout)

abbrev text : List (List ℕ × LineEnd)
text = (codes "ls", return_newline) ∷ (codes "", newline) ∷ []

abbrev text_pieces : List (List ℕ)
text_pieces = (codes "l") ∷ (codes "s" ++ (13 ∷ [])) ∷ (10 ∷ 10 ∷ codes "k") ∷ []

is_utf8_ls : (is_utf8 (codes "ls") ≡ true) × (is_utf8 [] ≡ true)
unfolding is_utf8
is_utf8_ls = (refl, refl)

feed_pieces-text_bytes_example :
    feed_pieces text_pieces (waiting []) ≡ (waiting (codes "k"), ok (codes "ls" ∷ [] ∷ []))
feed_pieces-text_bytes_example =
    feed_pieces-text_bytes text (codes "k") text_pieces
      ((((refl, (refl, tt)), omega arith), is_utf8_ls.0), (((tt, omega arith), is_utf8_ls.1), tt))
      ((refl, tt), omega arith) refl
