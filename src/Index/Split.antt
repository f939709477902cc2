-- ===== src/Index/Split.antt =====
-- A text is its finished lines and an unfinished rest, and text behind it changes neither the
-- finished lines nor where the rest begins.
use http_capture.Prelude.{
  ℕ, suc, ◌+◌, true, false, ◌==◌, Bytes, List, [], ◌∷◌, ◌++◌, ◌≡◌, refl, ap, ◌∙◌, arith, All,
  if◌then◌else◌, length, drop, Bool-cases, inl, inr,
}
use http_capture.Session.Extract.{lines_of, grow}
use http_capture.Index.Scan.{ends_line}

-- A line goes on to the left: with no line behind it, it is not finished yet.
unfoldable pub extend : ℕ → List Bytes → List Bytes
extend c [] = []
extend c (line ∷ lines) = (c ∷ line) ∷ lines

unfoldable pub finished : Bytes → List Bytes
unfolding extend
finished [] = []
finished (c ∷ s) = let rest = finished s in if c == b'\n' then (c ∷ []) ∷ rest else extend c rest

-- The unfinished text goes on to the left only if no line is finished behind it.
unfoldable pub keep : ℕ → List Bytes → Bytes → Bytes
keep c [] s = c ∷ s
keep c (line ∷ lines) s = s

unfoldable pub unfinished : Bytes → Bytes
unfolding keep
unfinished [] = []
unfinished (c ∷ s) =
    let rest = unfinished s in if c == b'\n' then rest else keep c (finished s) rest

unfoldable pub lines_length : List Bytes → ℕ
lines_length [] = 0
lines_length (line ∷ lines) = length line + lines_length lines

unfoldable pub as_lines : Bytes → List Bytes
as_lines [] = []
as_lines (c ∷ s) = (c ∷ s) ∷ []

-- By the finished lines behind the first byte.
finished_step :
    (c : ℕ) (s t : Bytes) (lines : List Bytes)
    → (c == b'\n') ≡ false
    → finished s ≡ lines
    → finished (s ++ t) ≡ lines ++ finished (unfinished s ++ t)
    → extend c (finished (s ++ t)) ≡ extend c lines ++ finished (keep c lines (unfinished s) ++ t)
unfolding extend keep finished
finished_step c s t [] inside e h = rw inside (ap (extend c) h)
finished_step c s t (line ∷ lines) inside e h = ap (extend c) h

pub finished-append : (s t : Bytes) → finished (s ++ t) ≡ finished s ++ finished (unfinished s ++ t)
unfolding finished unfinished
finished-append [] t = refl
finished-append (c ∷ s) t = elim (Bool-cases (c == b'\n')) [
  | inl end ↦ simp end (ap (λ lines. (c ∷ []) ∷ lines) (finished-append s t))
  | inr inside ↦ simp inside (finished_step c s t (finished s) inside refl (finished-append s t))
]

lines_of_step :
    (c : ℕ) (lines : List Bytes) (rest : Bytes)
    → grow c (lines ++ as_lines rest) ≡ extend c lines ++ as_lines (keep c lines rest)
unfolding grow extend keep as_lines
lines_of_step c [] [] = refl
lines_of_step c [] (d ∷ rest) = refl
lines_of_step c (line ∷ lines) rest = refl

pub lines_of-finished : (s : Bytes) → lines_of s ≡ finished s ++ as_lines (unfinished s)
unfolding lines_of finished unfinished as_lines
lines_of-finished [] = refl
lines_of-finished (c ∷ s) = elim (Bool-cases (c == b'\n')) [
  | inl end ↦ simp end (ap (λ lines. (c ∷ []) ∷ lines) (lines_of-finished s))
  | inr inside ↦
      simp inside (ap (grow c) (lines_of-finished s) ∙ lines_of_step c (finished s) (unfinished s))
]

drop_one : (n m : ℕ) (c : ℕ) (x : Bytes) → n ≡ suc m → drop n (c ∷ x) ≡ drop m x
drop_one n m c x e = ap (λ k. drop k (c ∷ x)) e

drop_step :
    (c : ℕ) (s t : Bytes) (lines : List Bytes)
    → drop (lines_length lines) (s ++ t) ≡ unfinished s ++ t
    → drop (lines_length (extend c lines)) (c ∷ (s ++ t)) ≡ keep c lines (unfinished s) ++ t
unfolding lines_length extend keep
drop_step c s t [] h = ap (λ x. c ∷ x) h
drop_step c s t (line ∷ lines) h = drop_one _ _ c (s ++ t) (omega arith) ∙ h

pub drop-finished : (s t : Bytes) → drop (lines_length (finished s)) (s ++ t) ≡ unfinished s ++ t
unfolding lines_length finished unfinished
drop-finished [] t = refl
drop-finished (c ∷ s) t = elim (Bool-cases (c == b'\n')) [
  | inl end ↦ simp end (drop_one _ _ c (s ++ t) (omega arith) ∙ drop-finished s t)
  | inr inside ↦ simp inside (drop_step c s t (finished s) (drop-finished s t))
]

ends_line-cons : (c : ℕ) (line : Bytes) → ends_line line ≡ true → ends_line (c ∷ line) ≡ true
unfolding ends_line
ends_line-cons c [] h = absurd (cc h)
ends_line-cons c (d ∷ line) h = h

ends_line-extend :
    (c : ℕ) (lines : List Bytes)
    → All (λ line. ends_line line ≡ true) lines
    → All (λ line. ends_line line ≡ true) (extend c lines)
unfolding extend
ends_line-extend c [] h = tt
ends_line-extend c (line ∷ lines) (first, rest) = (ends_line-cons c line first, rest)

pub ends_line-finished : (s : Bytes) → All (λ line. ends_line line ≡ true) (finished s)
unfolding finished
ends_line-finished [] = tt
ends_line-finished (c ∷ s) = elim (Bool-cases (c == b'\n')) [
  | inl end ↦ simp end ((unfold ends_line in end), ends_line-finished s)
  | inr inside ↦ simp inside (ends_line-extend c (finished s) (ends_line-finished s))
]

ends_line-keep :
    (c : ℕ) (lines : List Bytes) (rest : Bytes)
    → (c == b'\n') ≡ false
    → ends_line rest ≡ false
    → ends_line (keep c lines rest) ≡ false
unfolding ends_line keep
ends_line-keep c [] [] inside h = inside
ends_line-keep c [] (d ∷ rest) inside h = h
ends_line-keep c (line ∷ lines) rest inside h = h

pub ends_line-unfinished : (s : Bytes) → ends_line (unfinished s) ≡ false
unfolding unfinished
ends_line-unfinished [] = unfold ends_line in refl
ends_line-unfinished (c ∷ s) = elim (Bool-cases (c == b'\n')) [
  | inl end ↦ simp end (ends_line-unfinished s)
  | inr inside ↦
      simp inside (ends_line-keep c (finished s) (unfinished s) inside (ends_line-unfinished s))
]
