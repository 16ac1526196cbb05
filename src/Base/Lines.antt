-- ===== src/Base/Lines.antt =====
-- Python's `str.split`, `str.strip` and `str.startswith`, on texts as lists of code points.
use aero_risk_ai.Base.{
  ℕ, ◌≡◌, ◌≢◌, refl, inl, inr, Bool, true, false, ◌&&◌, ◌||◌, List, [], ◌∷◌, ◌++◌, arith, leb, ◌==◌,
  if◌then◌else◌, Bool-cases,
}
use aero_risk_ai.Base.Lists.{All}

abbrev pub Line : Type 0
Line = List ℕ

abbrev pub newline : ℕ
newline = 10

-- The code points that `str.isspace` accepts.
abbrev pub is_space : ℕ → Bool
is_space c =
    (leb 9 c && leb c 13)
    || (leb 28 c && leb c 32)
    || c == 133
    || c == 160
    || c == 5760
    || (leb 8192 c && leb c 8202)
    || c == 8232
    || c == 8233
    || c == 8239
    || c == 8287
    || c == 12288

abbrev pub lstrip : Line → Line
lstrip [] = []
lstrip (c ∷ s) = if is_space c then lstrip s else c ∷ s

-- `c` in front of a text that has been stripped on the right.
abbrev pub before : ℕ → Line → Line
before c [] = if is_space c then [] else c ∷ []
before c (d ∷ s) = c ∷ d ∷ s

abbrev pub rstrip : Line → Line
rstrip [] = []
rstrip (c ∷ s) = before c (rstrip s)

unfoldable pub strip : Line → Line
strip s = rstrip (lstrip s)

abbrev pub has_prefix : Line → Line → Bool
has_prefix [] s = true
has_prefix (c ∷ t) [] = false
has_prefix (c ∷ t) (d ∷ s) = c == d && has_prefix t s

-- `c` in front of the first part.
abbrev pub onto : ℕ → List Line → List Line
onto c [] = (c ∷ []) ∷ []
onto c (p ∷ ps) = (c ∷ p) ∷ ps

-- `s.split(sep)`, at one character.
unfoldable pub split : ℕ → Line → List Line
split sep [] = [] ∷ []
split sep (c ∷ s) = let rest = split sep s in if c == sep then [] ∷ rest else onto c rest

-- `s.split("\n\n")`
unfoldable pub split_blank : Line → List Line
split_blank [] = [] ∷ []
split_blank (c ∷ []) = (c ∷ []) ∷ []
split_blank (c ∷ d ∷ s) =
    let after = split_blank s in
    let rest = split_blank (d ∷ s) in
    if c == newline && d == newline then [] ∷ after else onto c rest

abbrev pub Lacks : ℕ → Line → Type 0
Lacks sep s = All (λ c. c ≢ sep) s

-- The lines, each with its newline.
abbrev pub unlines : List Line → Line
unlines [] = []
unlines (l ∷ ls) = l ++ (newline ∷ unlines ls)

split-append :
    (sep : ℕ) (l rest : Line) → Lacks sep l → split sep (l ++ (sep ∷ rest)) ≡ l ∷ split sep rest
unfolding split
split-append sep [] rest h = ground arith
split-append sep (c ∷ l) rest h = ground (arith, split-append sep l rest (h.1))

-- What is written line by line is split into its lines, and an empty text behind the last newline.
pub split-unlines :
    (ls : List Line) → All (Lacks newline) ls → split newline (unlines ls) ≡ ls ++ [] ∷ []
split-unlines [] h = unfold split in refl
split-unlines (l ∷ ls) h =
    rw (split-append newline l (unlines ls) (h.0), split-unlines ls (h.1)) refl

onto-Lacks :
    (sep c : ℕ) (ps : List Line) → c ≢ sep → All (Lacks sep) ps → All (Lacks sep) (onto c ps)
onto-Lacks sep c [] ne h = ((ne, tt), tt)
onto-Lacks sep c (p ∷ ps) ne h = ((ne, h.0), h.1)

pub split-Lacks : (sep : ℕ) (s : Line) → All (Lacks sep) (split sep s)
unfolding split
split-Lacks sep [] = (tt, tt)
split-Lacks sep (c ∷ s) = elim (Bool-cases (c == sep)) [
  | inl e ↦ rw e (tt, split-Lacks sep s)
  | inr n ↦ rw n (onto-Lacks sep c (split sep s) (ground arith) (split-Lacks sep s))
]

lstrip-Lacks : (sep : ℕ) (s : Line) → Lacks sep s → Lacks sep (lstrip s)
lstrip-Lacks sep [] h = tt
lstrip-Lacks sep (c ∷ s) h = elim (Bool-cases (is_space c)) [
  | inl e ↦ rw e (lstrip-Lacks sep s (h.1))
  | inr n ↦ rw n h
]

before-Lacks : (sep c : ℕ) (s : Line) → c ≢ sep → Lacks sep s → Lacks sep (before c s)
before-Lacks sep c [] ne h = elim (Bool-cases (is_space c)) [
  | inl e ↦ rw e tt
  | inr n ↦ rw n (ne, tt)
]
before-Lacks sep c (d ∷ s) ne h = (ne, h)

rstrip-Lacks : (sep : ℕ) (s : Line) → Lacks sep s → Lacks sep (rstrip s)
rstrip-Lacks sep [] h = tt
rstrip-Lacks sep (c ∷ s) h = before-Lacks sep c (rstrip s) (h.0) (rstrip-Lacks sep s (h.1))

pub strip-Lacks : (sep : ℕ) (s : Line) → Lacks sep s → Lacks sep (strip s)
unfolding strip
strip-Lacks sep s h = rstrip-Lacks sep (lstrip s) (lstrip-Lacks sep s h)

rstrip-before : (c : ℕ) (s : Line) → rstrip s ≡ s → rstrip (before c s) ≡ before c s
rstrip-before c [] h = elim (Bool-cases (is_space c)) [
  | inl e ↦ rw e refl
  | inr n ↦ rw n (rw n refl)
]
rstrip-before c (d ∷ s) h = rw h refl

rstrip-rstrip : (s : Line) → rstrip (rstrip s) ≡ rstrip s
rstrip-rstrip [] = refl
rstrip-rstrip (c ∷ s) = rstrip-before c (rstrip s) (rstrip-rstrip s)

lstrip-before : (c : ℕ) (s : Line) → is_space c ≡ false → lstrip (before c s) ≡ before c s
lstrip-before c [] n = rw n (rw n refl)
lstrip-before c (d ∷ s) n = rw n refl

lstrip-strip : (s : Line) → lstrip (rstrip (lstrip s)) ≡ rstrip (lstrip s)
lstrip-strip [] = refl
lstrip-strip (c ∷ s) = elim (Bool-cases (is_space c)) [
  | inl e ↦ rw e (lstrip-strip s)
  | inr n ↦ rw n (lstrip-before c (rstrip s) n)
]

pub strip-strip : (s : Line) → strip (strip s) ≡ strip s
unfolding strip
strip-strip s = rw (lstrip-strip s) (rstrip-rstrip (lstrip s))
