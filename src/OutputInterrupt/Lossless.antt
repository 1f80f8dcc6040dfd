-- ===== src/OutputInterrupt/Lossless.antt =====
-- The bytes of the two sides of `partition` in crates/et-core/src/output_interrupt.rs, and those of
-- the promotion.
use mathlib.Core.List.{Perm, perm_middle}
use mathlib.Core.List.Perm
use mathlib.Core.List.{foldr}
use native.Mathlib.Nat.{ℕ_set}
use et_rs.Prelude.{
  ◌==◌, Bool-cases, length, take, drop, length-append, take-append-drop, ℕ, suc, ◌+◌, ◌≡◌, refl,
  sym, ap, subst, ◌∙◌, inl, inr, ◌&&◌, ◌||◌, not, some, List, [], ◌∷◌, ◌++◌, append_assoc, arith,
}
use et_rs.FlowControl.{new}
use et_rs.OutputInterrupt.{newline, TerminalStream, observe}
use et_rs.OutputInterrupt.Partition.{
  attach, split_inclusive, starts_line, Parts, keeps_line, keep, let_go, partition_lines,
  partition_started, partition, any_control_line, complete_offset, promote_parts, promote_control,
}

abbrev lines_bytes : List (List ℕ) → List ℕ
lines_bytes [] = []
lines_bytes (line ∷ lines) = line ++ lines_bytes lines

attach_bytes :
    (b : ℕ) (lines : List (List ℕ)) → lines_bytes (attach b lines) ≡ b ∷ lines_bytes lines
attach_bytes b [] = refl
attach_bytes b (line ∷ lines) = refl

lines_bytes-split_inclusive : (bytes : List ℕ) → lines_bytes (split_inclusive bytes) ≡ bytes
unfolding split_inclusive
lines_bytes-split_inclusive [] = refl
lines_bytes-split_inclusive (b ∷ bs) = elim (Bool-cases (b == newline)) [
  | inl end_line ↦ rw end_line (ap (◌∷◌ b) (lines_bytes-split_inclusive bs))
  | inr inside ↦
      rw inside (attach_bytes b (split_inclusive bs) ∙ ap (◌∷◌ b) (lines_bytes-split_inclusive bs))
]

-- The parts hold the same bytes, each as often.
abbrev Holds : Parts → List ℕ → Type 0
Holds parts bytes = Perm (parts.kept ++ parts.droppable) bytes

pub append_perm : (front : List ℕ) {xs ys : List ℕ} → Perm xs ys → Perm (front ++ xs) (front ++ ys)
append_perm [] p = p
append_perm (b ∷ front) p = Perm.cons b (append_perm front p)

middle_perm : (front line rest : List ℕ) → Perm (front ++ (line ++ rest)) (line ++ (front ++ rest))
middle_perm front [] rest = Perm.refl (front ++ rest)
middle_perm front (b ∷ line) rest =
    Perm.trans (perm_middle front (line ++ rest)) (Perm.cons b (middle_perm front line rest))

keep-Holds :
    (line rest : List ℕ) (parts : Parts) → Holds parts rest → Holds (keep line parts) (line ++ rest)
keep-Holds line rest parts h =
    rw (append_assoc line parts.kept parts.droppable) (append_perm line h)

let_go-Holds :
    (line rest : List ℕ) (parts : Parts)
    → Holds parts rest
    → Holds (let_go line parts) (line ++ rest)
let_go-Holds line rest parts h =
    Perm.trans (middle_perm parts.kept line parts.droppable) (append_perm line h)

partition_lines-Holds :
    (s : TerminalStream) (lines : List (List ℕ))
    → Holds (partition_lines s lines) (lines_bytes lines)
unfolding partition_lines
partition_lines-Holds s [] = Perm.refl []
partition_lines-Holds s (line ∷ lines) =
    let rest = partition_lines-Holds (observe s line) lines in
    elim (Bool-cases (keeps_line s line)) [
      | inl kept ↦
          rw kept
            (keep-Holds line (lines_bytes lines) (partition_lines (observe s line) lines) rest)
      | inr dropped ↦
          rw dropped
            (let_go-Holds line (lines_bytes lines) (partition_lines (observe s line) lines) rest)
    ]

partition_started-Holds :
    (s : TerminalStream) (lines : List (List ℕ))
    → Holds (partition_started s lines) (lines_bytes lines)
unfolding partition_started
partition_started-Holds s [] = partition_lines-Holds s []
partition_started-Holds s (line ∷ lines) = elim (Bool-cases (starts_line line)) [
  | inl new ↦ rw (new, partition_started) (partition_lines-Holds s (line ∷ lines))
  | inr old ↦
      rw (old, partition_started)
        (keep-Holds line (lines_bytes lines) (partition_started (observe s line) lines)
          (partition_started-Holds (observe s line) lines))
]

partition-lines-Holds :
    (s : TerminalStream) (bytes : List ℕ)
    → Holds (partition s bytes) (lines_bytes (split_inclusive bytes))
unfolding partition
partition-lines-Holds s bytes = elim (Bool-cases (s.control && s.midline)) [
  | inl started ↦ rw started (partition_started-Holds s (split_inclusive bytes))
  | inr whole ↦ rw whole (partition_lines-Holds s (split_inclusive bytes))
]

partition-Holds : (s : TerminalStream) (bytes : List ℕ) → Holds (partition s bytes) bytes
partition-Holds s bytes =
    subst (λ out. Holds (partition s bytes) out) (lines_bytes-split_inclusive bytes)
      (partition-lines-Holds s bytes)

-- What is promoted, with the rest behind it, is the front with the rest behind it.
both_perm :
    (parts : Parts) (front rest : List ℕ)
    → Holds parts front
    → Perm (parts.kept ++ (parts.droppable ++ rest)) (front ++ rest)
both_perm parts front rest h =
    rw (← append_assoc parts.kept parts.droppable rest) (Perm.append_right rest h)

promote_parts-perm :
    (parts : Parts) (front rest promoted : List ℕ)
    → Holds parts front
    → promote_parts parts rest ≡ some promoted
    → Perm promoted (front ++ rest)
unfolding promote_parts
promote_parts-perm parts front rest promoted h e =
    elim (Bool-cases (length parts.kept == 0 || length parts.droppable == 0)) [
      | inl nothing ↦ let e' = simp nothing at e in absurd (ground arith)
      | inr both ↦
          let e' : some (parts.kept ++ (parts.droppable ++ rest)) ≡ some promoted =
            simp both at e in
          let same : parts.kept ++ (parts.droppable ++ rest) ≡ promoted = cc in
          subst (λ out. Perm out (front ++ rest)) same (both_perm parts front rest h)
    ]

-- The promotion gives back the bytes that it was given, each as often.
pub promote_control-perm :
    (s : TerminalStream) (bytes promoted : List ℕ)
    → promote_control s bytes ≡ some promoted
    → Perm promoted bytes
unfolding promote_control
promote_control-perm s bytes promoted e =
    let n = complete_offset s (split_inclusive bytes) 0 0 in
    elim (Bool-cases (not s.control && not (any_control_line (split_inclusive bytes)))) [
      | inl none_wanted ↦ let e' = simp none_wanted at e in absurd (ground arith)
      | inr wanted ↦
          let e' : promote_parts (partition s (take n bytes)) (drop n bytes) ≡ some promoted =
            simp wanted at e in
          let front : Holds (partition s (take n bytes)) (take n bytes) =
            partition-Holds s (take n bytes) in
          subst (Perm promoted) (take-append-drop n bytes) (
            promote_parts-perm (partition s (take n bytes)) (take n bytes) (drop n bytes) promoted
              front e')
    ]

-- The lengths of a permutation, on the native numbers.
length-foldr : (xs : List ℕ) → length xs ≡ foldr (λ b n. suc n) 0 xs
length-foldr [] = refl
length-foldr (b ∷ xs) = ap suc (length-foldr xs)

length_perm : (xs ys : List ℕ) → Perm xs ys → length xs ≡ length ys
length_perm xs ys p =
    length-foldr xs
    ∙ (Perm.foldr-eq ℕ_set (λ b n. suc n) (λ a b n. refl) p 0 ∙ sym (length-foldr ys))

pub length-partition :
    (s : TerminalStream) (bytes : List ℕ)
    → length (partition s bytes).kept + length (partition s bytes).droppable ≡ length bytes
length-partition s bytes =
    let parts = partition s bytes in
    sym (length-append parts.kept parts.droppable)
    ∙ length_perm (parts.kept ++ parts.droppable) bytes (partition-Holds s bytes)
