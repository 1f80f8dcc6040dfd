-- ===== src/Layout.antt =====
-- crates/et-htm/src/layout.rs: the split trees of the multiplexer's windows. A weight is an `f32`; its
-- arithmetic is a parameter, on the bits of the numbers.
pub mod Shape
pub mod Panes
use et_rs.Prelude.{
  ltb, ◌==◌, if◌then◌else◌, bytes_eq, length, replicate, ℕ, zero, suc, ◌+◌, Bool, true, false, ◌&&◌,
  ◌||◌, not, Option, none, some, List, [], ◌∷◌, ◌++◌, map,
}
use et_rs.OutputInterrupt.{has_prefix}
use et_rs.Crypto.Proof.{codes}

pub record Floats : Type 0 where
  pub zero_weight : ℕ
  pub half : ℕ
  pub halve : ℕ → ℕ
  pub add : ℕ → ℕ → ℕ
  pub divide : ℕ → ℕ → ℕ
  pub share : ℕ → ℕ

mutual
  pub data Layout : Type 0 where
    pane : ℕ → Layout
    split : Bool → Layouts → List ℕ → Layout

  pub data Layouts : Type 0 where
    nil : Layouts
    cons : Layout → Layouts → Layouts

unfoldable mutual
  pub panes : Layout → List ℕ
  panes (pane p) = p ∷ []
  panes (split horizontal children sizes) = panes_all children

  pub panes_all : Layouts → List ℕ
  panes_all nil = []
  panes_all (cons c cs) = panes c ++ panes_all cs

unfoldable mutual
  pub contains : ℕ → Layout → Bool
  contains id (pane p) = p == id
  contains id (split horizontal children sizes) = contains_any id children

  pub contains_any : ℕ → Layouts → Bool
  contains_any id nil = false
  contains_any id (cons c cs) = contains id c || contains_any id cs

abbrev pub count : Layouts → ℕ
count nil = 0
count (cons c cs) = suc (count cs)

-- `position` of the pane among the children themselves.
abbrev pub is_pane : ℕ → Layout → Bool
is_pane id (pane p) = p == id
is_pane id (split horizontal children sizes) = false

abbrev pub next_place : Option ℕ → Option ℕ
next_place none = none
next_place (some index) = some (suc index)

unfoldable pub position : ℕ → Layouts → Option ℕ
position id nil = none
position id (cons c cs) =
    let rest = next_place (position id cs) in if is_pane id c then some 0 else rest

abbrev pub same_axis : Bool → Bool → Bool
same_axis true b = b
same_axis false b = not b

abbrev pub spot : Bool → Bool → ℕ → Layouts → Option ℕ
spot axis horizontal dest children =
    if same_axis axis horizontal then position dest children else none

-- `Vec::insert`; the code gives a place within the list.
unfoldable pub insert_child : ℕ → Layout → Layouts → Layouts
insert_child zero c cs = cons c cs
insert_child (suc n) c nil = cons c nil
insert_child (suc n) c (cons d cs) = cons d (insert_child n c cs)

unfoldable pub insert_size : ℕ → ℕ → List ℕ → List ℕ
insert_size zero s ss = s ∷ ss
insert_size (suc n) s [] = s ∷ []
insert_size (suc n) s (x ∷ ss) = x ∷ insert_size n s ss

abbrev pub place : Option Bool → ℕ → ℕ → ℕ
place none len index = len
place (some before) len index = if before then index else index + 1

-- A pane of the two in a new split stands before the other only where the caller says so.
abbrev pub is_before : Option Bool → Bool
is_before none = false
is_before (some before) = before

abbrev pub two : Bool → ℕ → ℕ → Layouts
two first id dest =
    if first then cons (pane id) (cons (pane dest) nil) else cons (pane dest) (cons (pane id) nil)

module _ (f : Floats) (dest id : ℕ) (horizontal : Bool) (before : Option Bool) where
  -- A split, with the children in which the pane went deeper, or beside its destination.
  unfoldable pub insert_split : Bool → Layouts → List ℕ → Layouts → Option ℕ → Layout
  unfolding insert_child insert_size
  insert_split axis children sizes deeper none = split axis deeper sizes
  insert_split axis children sizes deeper (some index) =
      let at = place before (count children) index in
      split axis (insert_child at (pane id) children) (insert_size at f.half (map f.halve sizes))

  unfoldable mutual
    unfolding insert_split position contains

    pub insert : Layout → Layout
    insert (pane p) =
        if p == dest
        then split horizontal (two (is_before before) id dest) (f.half ∷ f.half ∷ [])
        else pane p
    insert (split axis children sizes) =
        insert_split axis children sizes (insert_first children)
          (spot axis horizontal dest children)

    -- The first child that contains the destination.
    pub insert_first : Layouts → Layouts
    insert_first nil = nil
    insert_first (cons c cs) =
        let here = insert c in
        let rest = insert_first cs in if contains dest c then cons here cs else cons c rest

abbrev pub push_kept : Option Layout → ℕ → Layouts × List ℕ → Layouts × List ℕ
push_kept none size rest = rest
push_kept (some c) size (cs, sizes) = (cons c cs, size ∷ sizes)

abbrev pub sum_sizes : Floats → ℕ → List ℕ → ℕ
sum_sizes f sum [] = sum
sum_sizes f sum (s ∷ ss) = sum_sizes f (f.add sum s) ss

-- What remains of a split: nothing, an only child, or a split with the weights scaled up.
unfoldable pub collapse : Floats → Bool → Layouts × List ℕ → Option Layout
collapse f horizontal (nil, sizes) = none
collapse f horizontal (cons c nil, sizes) = some c
collapse f horizontal (cons c (cons d cs), sizes) =
    let sum = sum_sizes f f.zero_weight sizes in
    some (split horizontal (cons c (cons d cs)) (map (λ s. f.divide s sum) sizes))

module _ (f : Floats) (id : ℕ) where
  unfoldable mutual
    unfolding collapse

    pub remove : Layout → Option Layout
    remove (pane p) = if p == id then none else some (pane p)
    remove (split horizontal children sizes) = collapse f horizontal (remove_all children sizes)

    -- The children beside their weights, without what is removed.
    pub remove_all : Layouts → List ℕ → Layouts × List ℕ
    remove_all nil sizes = (nil, [])
    remove_all (cons c cs) [] = (nil, [])
    remove_all (cons c cs) (s ∷ ss) = push_kept (remove c) s (remove_all cs ss)

abbrev pub swap_id : ℕ → ℕ → ℕ → ℕ
swap_id a b p = if p == a then b else if p == b then a else p

unfoldable mutual
  pub swap : ℕ → ℕ → Layout → Layout
  swap a b (pane p) = pane (swap_id a b p)
  swap a b (split horizontal children sizes) = split horizontal (swap_all a b children) sizes

  pub swap_all : ℕ → ℕ → Layouts → Layouts
  swap_all a b nil = nil
  swap_all a b (cons c cs) = cons (swap a b c) (swap_all a b cs)

abbrev pub has_text : List ℕ → List ℕ → Bool
has_text text [] = has_prefix text []
has_text text (b ∷ bs) = has_prefix text (b ∷ bs) || has_text text bs

abbrev pub is_horizontal : List ℕ → Bool
is_horizontal name =
    (bytes_eq name (codes "even-horizontal") || bytes_eq name (codes "main-vertical"))
    || (not (has_text (codes "vertical") name) && not (bytes_eq name (codes "main-horizontal")))

abbrev pub pane_list : List ℕ → Layouts
pane_list [] = nil
pane_list (p ∷ ps) = cons (pane p) (pane_list ps)

unfoldable pub select : Floats → List ℕ → Layout → Layout
unfolding panes
select f name l =
    if ltb (length (panes l)) 2
    then l
    else split (is_horizontal name) (pane_list (panes l))
        (replicate (length (panes l)) (f.share (length (panes l))))
