-- ===== src/Layout/Panes.antt =====
-- The panes of a window of crates/et-htm/src/layout.rs under `insert` and `remove`.
use mathlib.Core.List.{Perm, perm_middle}
use mathlib.Core.List.Perm
use et_rs.Prelude.{
  ltb, ◌==◌, if◌then◌else◌, Bool-cases, length, ℕ, zero, suc, ◌≡◌, refl, sym, ap, ap₂, ◌∙◌, inl,
  inr, Bool, true, false, Option, none, some, List, [], ◌∷◌, ◌++◌, map, append-nil, map-append,
  arith,
}
use et_rs.OutputInterrupt.Lossless.{append_perm}
use et_rs.Layout.Shape.{IsLayout, AreLayouts}
use et_rs.Layout.{
  Floats, Layout, pane, split, Layouts, nil, cons, panes, panes_all, contains, contains_any, count,
  spot, insert_child, place, is_before, two, insert_split, insert, insert_first, push_kept,
  collapse, remove, remove_all, swap_id, swap, swap_all, pane_list, select,
}

abbrev pub without : ℕ → List ℕ → List ℕ
without id [] = []
without id (p ∷ ps) = if p == id then without id ps else p ∷ without id ps

without-append : (id : ℕ) (ps qs : List ℕ) → without id (ps ++ qs) ≡ without id ps ++ without id qs
without-append id [] qs = refl
without-append id (p ∷ ps) qs = elim (Bool-cases (p == id)) [
  | inl same ↦ rw same (without-append id ps qs)
  | inr other ↦ rw other (ap (◌∷◌ p) (without-append id ps qs))
]

-- The panes of what remains.
abbrev pub remaining : Option Layout → List ℕ
remaining none = []
remaining (some l) = panes l

collapse-panes :
    (f : Floats) (horizontal : Bool) (cs : Layouts) (sizes : List ℕ)
    → remaining (collapse f horizontal (cs, sizes)) ≡ panes_all cs
unfolding collapse panes
collapse-panes f horizontal nil sizes = refl
collapse-panes f horizontal (cons c nil) sizes = sym (append-nil (panes c))
collapse-panes f horizontal (cons c (cons d cs)) sizes = refl

push_kept-panes :
    (o : Option Layout) (size : ℕ) (rest : Layouts × List ℕ)
    → panes_all (push_kept o size rest).0 ≡ remaining o ++ panes_all rest.0
unfolding panes
push_kept-panes none size rest = refl
push_kept-panes (some c) size rest = refl

remove_pane : (f : Floats) (id p : ℕ) → remaining (remove f id (pane p)) ≡ without id (p ∷ [])
unfolding remove panes
remove_pane f id p = elim (Bool-cases (p == id)) [
  | inl same ↦ rw same refl
  | inr other ↦ rw other refl
]

mutual
  unfolding remove panes

  remove_lem :
      (f : Floats) (id : ℕ) (l : Layout)
      → IsLayout l
      → remaining (remove f id l) ≡ without id (panes l)
  remove_lem f id (pane p) h = remove_pane f id p
  remove_lem f id (split horizontal children sizes) h =
      collapse-panes f horizontal (remove_all f id children sizes).0
        (remove_all f id children sizes).1
      ∙ remove_all_lem f id children sizes h.0 h.2

  remove_all_lem :
      (f : Floats) (id : ℕ) (cs : Layouts) (sizes : List ℕ)
      → length sizes ≡ count cs
      → AreLayouts cs
      → panes_all (remove_all f id cs sizes).0 ≡ without id (panes_all cs)
  remove_all_lem f id nil sizes same h = refl
  remove_all_lem f id (cons c cs) [] same h = absurd (ground arith)
  remove_all_lem f id (cons c cs) (s ∷ ss) same h =
      push_kept-panes (remove f id c) s (remove_all f id cs ss)
      ∙ ap₂ ◌++◌ (remove_lem f id c h.0) (remove_all_lem f id cs ss (omega arith) h.1)
      ∙ sym (without-append id (panes c) (panes_all cs))

-- Removing a pane leaves all the others, in their order.
pub panes-remove :
    (f : Floats) (id : ℕ) (l : Layout)
    → IsLayout l
    → remaining (remove f id l) ≡ without id (panes l)
panes-remove f id l h = remove_lem f id l h

mutual
  unfolding swap panes

  swap_lem : (a b : ℕ) (l : Layout) → panes (swap a b l) ≡ map (swap_id a b) (panes l)
  swap_lem a b (pane p) = refl
  swap_lem a b (split horizontal children sizes) = swap_all_lem a b children

  swap_all_lem :
      (a b : ℕ) (cs : Layouts) → panes_all (swap_all a b cs) ≡ map (swap_id a b) (panes_all cs)
  swap_all_lem a b nil = refl
  swap_all_lem a b (cons c cs) =
      ap₂ ◌++◌ (swap_lem a b c) (swap_all_lem a b cs)
      ∙ sym (map-append (swap_id a b) (panes c) (panes_all cs))

panes-pane_list : (ps : List ℕ) → panes_all (pane_list ps) ≡ ps
unfolding panes
panes-pane_list [] = refl
panes-pane_list (p ∷ ps) = ap (◌∷◌ p) (panes-pane_list ps)

-- Neither a swap nor a layout that is chosen by its name loses a pane: a swap puts each of the two
-- in the other's place, and a chosen layout keeps the order.
pub panes-rearranged :
    (f : Floats) (a b : ℕ) (name : List ℕ) (l : Layout)
    → (panes (swap a b l) ≡ map (swap_id a b) (panes l)) × (panes (select f name l) ≡ panes l)
unfolding select
panes-rearranged f a b name l = (
  swap_lem a b l,
  elim (Bool-cases (ltb (length (panes l)) 2)) [
    | inl few ↦ rw few refl
    | inr many ↦ rw many (unfold panes in panes-pane_list (panes l))
  ],
)

-- A new child, wherever it is put.
insert_child-perm :
    (at id : ℕ) (cs : Layouts) → Perm (panes_all (insert_child at (pane id) cs)) (id ∷ panes_all cs)
unfolding insert_child panes
insert_child-perm zero id cs = Perm.refl (id ∷ panes_all cs)
insert_child-perm (suc n) id nil = Perm.refl (id ∷ [])
insert_child-perm (suc n) id (cons d cs) =
    Perm.trans (append_perm (panes d) (insert_child-perm n id cs))
      (perm_middle (panes d) (panes_all cs))

two-perm : (first : Bool) (id dest : ℕ) → Perm (panes_all (two first id dest)) (id ∷ dest ∷ [])
unfolding panes
two-perm true id dest = Perm.refl (id ∷ dest ∷ [])
two-perm false id dest = Perm.swap id dest []

module _ (f : Floats) (dest id : ℕ) (horizontal : Bool) (before : Option Bool) where
  insert_split-perm :
      (axis : Bool) (cs : Layouts) (sizes : List ℕ) (deeper : Layouts) (o : Option ℕ)
      → Perm (panes_all deeper) (id ∷ panes_all cs)
      → Perm
          (panes (insert_split f dest id horizontal before axis cs sizes deeper o))
          (id ∷ panes_all cs)
  unfolding insert_split panes
  insert_split-perm axis cs sizes deeper none h = h
  insert_split-perm axis cs sizes deeper (some index) h =
      insert_child-perm (place before (count cs) index) id cs

  mutual
    unfolding insert panes contains

    insert_lem :
        (l : Layout)
        → contains dest l ≡ true
        → Perm (panes (insert f dest id horizontal before l)) (id ∷ panes l)
    insert_lem (pane p) h =
        let same : p ≡ dest = ground arith in rw h (rw same (two-perm (is_before before) id dest))
    insert_lem (split axis children sizes) h =
        insert_split-perm axis children sizes (insert_first f dest id horizontal before children)
          (spot axis horizontal dest children) (insert_first_lem children h)

    insert_first_lem :
        (cs : Layouts)
        → contains_any dest cs ≡ true
        → Perm (panes_all (insert_first f dest id horizontal before cs)) (id ∷ panes_all cs)
    insert_first_lem nil h = absurd (ground arith)
    insert_first_lem (cons c cs) h = elim (Bool-cases (contains dest c)) [
      | inl here ↦ rw here (Perm.append_right (panes_all cs) (insert_lem c here))
      | inr there ↦
          let h' : contains_any dest cs ≡ true = simp there at h in
          rw there (
            Perm.trans (append_perm (panes c) (insert_first_lem cs h'))
              (perm_middle (panes c) (panes_all cs)))
    ]

-- A pane that is put beside one of the window's panes comes to the others, and none is lost.
pub panes-insert :
    (f : Floats) (dest id : ℕ) (horizontal : Bool) (before : Option Bool) (l : Layout)
    → contains dest l ≡ true
    → Perm (panes (insert f dest id horizontal before l)) (id ∷ panes l)
panes-insert f dest id horizontal before l h = insert_lem f dest id horizontal before l h
