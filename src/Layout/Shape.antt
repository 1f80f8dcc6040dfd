-- ===== src/Layout/Shape.antt =====
-- The shape of the windows of crates/et-htm/src/layout.rs under `insert` and `remove`: the children
-- of a split and their weights.
use et_rs.Prelude.{
  ◌==◌, Bool-cases, length, length-append, length-map, ℕ, zero, suc, ◌≤◌, ◌≡◌, refl, sym, ap, ◌∙◌,
  inl, inr, Bool, true, false, Option, none, some, List, [], ◌∷◌, map, arith,
}
use et_rs.Layout.{
  Floats, Layout, pane, split, Layouts, nil, cons, panes, panes_all, contains, count, spot,
  insert_child, insert_size, place, is_before, two, insert_split, insert, insert_first, push_kept,
  sum_sizes, collapse, remove, remove_all,
}

-- A window as the program keeps it: every split has a weight for each child, and two children.
abbrev mutual
  pub IsLayout : Layout → Type 0
  IsLayout (pane p) = Unit
  IsLayout (split horizontal children sizes) =
      (length sizes ≡ count children) × (2 ≤ count children) × AreLayouts children

  pub AreLayouts : Layouts → Type 0
  AreLayouts nil = Unit
  AreLayouts (cons c cs) = IsLayout c × AreLayouts cs

abbrev pub IsRest : Option Layout → Type 0
IsRest none = Unit
IsRest (some l) = IsLayout l

-- Children beside as many weights.
abbrev ArePaired : Layouts × List ℕ → Type 0
ArePaired (cs, sizes) = (length sizes ≡ count cs) × AreLayouts cs

push_kept-ArePaired :
    (o : Option Layout) (size : ℕ) (rest : Layouts × List ℕ)
    → IsRest o
    → ArePaired rest
    → ArePaired (push_kept o size rest)
push_kept-ArePaired none size rest h r = r
push_kept-ArePaired (some c) size rest h r = (ap suc r.0, (h, r.1))

collapse-IsRest :
    (f : Floats) (horizontal : Bool) (cs : Layouts) (sizes : List ℕ)
    → ArePaired (cs, sizes)
    → IsRest (collapse f horizontal (cs, sizes))
unfolding collapse
collapse-IsRest f horizontal nil sizes h = tt
collapse-IsRest f horizontal (cons c nil) sizes h = h.1.0
collapse-IsRest f horizontal (cons c (cons d cs)) sizes h =
    let sum = sum_sizes f f.zero_weight sizes in
    (length-map sizes (λ s. f.divide s sum) ∙ h.0, omega arith, h.1)

remove_pane-IsRest : (f : Floats) (id p : ℕ) → IsRest (remove f id (pane p))
unfolding remove
remove_pane-IsRest f id p = elim (Bool-cases (p == id)) [
  | inl same ↦ rw same tt
  | inr other ↦ rw other tt
]

mutual
  unfolding remove

  remove-IsRest : (f : Floats) (id : ℕ) (l : Layout) → IsLayout l → IsRest (remove f id l)
  remove-IsRest f id (pane p) h = remove_pane-IsRest f id p
  remove-IsRest f id (split horizontal children sizes) h =
      collapse-IsRest f horizontal (remove_all f id children sizes).0
        (remove_all f id children sizes).1 (remove_all-ArePaired f id children sizes h.0 h.2)

  remove_all-ArePaired :
      (f : Floats) (id : ℕ) (cs : Layouts) (sizes : List ℕ)
      → length sizes ≡ count cs
      → AreLayouts cs
      → ArePaired (remove_all f id cs sizes)
  remove_all-ArePaired f id nil sizes same h = (refl, tt)
  remove_all-ArePaired f id (cons c cs) [] same h = (refl, tt)
  remove_all-ArePaired f id (cons c cs) (s ∷ ss) same h =
      push_kept-ArePaired (remove f id c) s (remove_all f id cs ss) (remove-IsRest f id c h.0)
        (remove_all-ArePaired f id cs ss (omega arith) h.1)

count-insert_child :
    (at : ℕ) (c : Layout) (cs : Layouts) → count (insert_child at c cs) ≡ suc (count cs)
unfolding insert_child
count-insert_child zero c cs = refl
count-insert_child (suc n) c nil = refl
count-insert_child (suc n) c (cons d cs) = ap suc (count-insert_child n c cs)

length-insert_size : (at s : ℕ) (ss : List ℕ) → length (insert_size at s ss) ≡ suc (length ss)
unfolding insert_size
length-insert_size zero s ss = refl
length-insert_size (suc n) s [] = refl
length-insert_size (suc n) s (x ∷ ss) = ap suc (length-insert_size n s ss)

insert_child-AreLayouts :
    (at : ℕ) (c : Layout) (cs : Layouts)
    → IsLayout c
    → AreLayouts cs
    → AreLayouts (insert_child at c cs)
unfolding insert_child
insert_child-AreLayouts zero c cs h hs = (h, hs)
insert_child-AreLayouts (suc n) c nil h hs = (h, tt)
insert_child-AreLayouts (suc n) c (cons d cs) h hs = (hs.0, insert_child-AreLayouts n c cs h hs.1)

two-AreLayouts :
    (first : Bool) (id dest : ℕ) → (count (two first id dest) ≡ 2) × AreLayouts (two first id dest)
two-AreLayouts true id dest = (refl, (tt, (tt, tt)))
two-AreLayouts false id dest = (refl, (tt, (tt, tt)))

module _ (f : Floats) (dest id : ℕ) (horizontal : Bool) (before : Option Bool) where
  insert_split-IsLayout :
      (axis : Bool) (cs : Layouts) (sizes : List ℕ) (deeper : Layouts) (o : Option ℕ)
      → IsLayout (split axis cs sizes)
      → IsLayout (split axis deeper sizes)
      → IsLayout (insert_split f dest id horizontal before axis cs sizes deeper o)
  unfolding insert_split
  insert_split-IsLayout axis cs sizes deeper none h d = d
  insert_split-IsLayout axis cs sizes deeper (some index) h d =
      let at = place before (count cs) index in
      let more = count-insert_child at (pane id) cs in
      (
        length-insert_size at f.half (map f.halve sizes)
            ∙ ap suc (length-map sizes f.halve ∙ h.0)
            ∙ sym more,
        omega (arith, more, h.1),
        insert_child-AreLayouts at (pane id) cs tt h.2,
      )

  insert_pane-IsLayout : (p : ℕ) → IsLayout (insert f dest id horizontal before (pane p))
  unfolding insert
  insert_pane-IsLayout p =
      let both = two-AreLayouts (is_before before) id dest in
      elim (Bool-cases (p == dest)) [
        | inl same ↦ rw same (sym both.0, omega (arith, both.0), both.1)
        | inr other ↦ rw other tt
      ]

  mutual
    unfolding insert

    insert-IsLayout : (l : Layout) → IsLayout l → IsLayout (insert f dest id horizontal before l)
    insert-IsLayout (pane p) h = insert_pane-IsLayout p
    insert-IsLayout (split axis children sizes) h =
        let deeper = insert_first-AreLayouts children h.2 in
        insert_split-IsLayout axis children sizes
          (insert_first f dest id horizontal before children) (spot axis horizontal dest children) h
          (h.0 ∙ sym deeper.0, omega (arith, deeper.0, h.1), deeper.1)

    insert_first-AreLayouts :
        (cs : Layouts)
        → AreLayouts cs
        → (count (insert_first f dest id horizontal before cs) ≡ count cs)
          × AreLayouts (insert_first f dest id horizontal before cs)
    insert_first-AreLayouts nil h = (refl, tt)
    insert_first-AreLayouts (cons c cs) h =
        let rest = insert_first-AreLayouts cs h.1 in
        let first = insert-IsLayout c h.0 in
        elim (Bool-cases (contains dest c)) [
          | inl here ↦ rw here (refl, (first, h.1))
          | inr there ↦ rw there (ap suc rest.0, (h.0, rest.1))
        ]

mutual
  unfolding panes

  panes_some : (l : Layout) → IsLayout l → 1 ≤ length (panes l)
  panes_some (pane p) h = omega arith
  panes_some (split horizontal children sizes) h = panes_all_some children h.1 h.2

  panes_all_some : (cs : Layouts) → 2 ≤ count cs → AreLayouts cs → 1 ≤ length (panes_all cs)
  panes_all_some nil more h = absurd (omega arith)
  panes_all_some (cons c cs) more h =
      omega (arith, length-append (panes c) (panes_all cs), panes_some c h.0)

-- A window always has a pane, and stays a window: putting a pane in keeps its shape, and so does
-- taking one out, unless nothing remains.
pub insert-remove-IsLayout :
    (f : Floats) (dest id : ℕ) (horizontal : Bool) (before : Option Bool) (l : Layout)
    → IsLayout l
    → (1 ≤ length (panes l))
      × IsLayout (insert f dest id horizontal before l)
      × IsRest (remove f id l)
insert-remove-IsLayout f dest id horizontal before l h =
    (panes_some l h, insert-IsLayout f dest id horizontal before l h, remove-IsRest f id l h)
