-- ===== src/Password/Repetitions.antt =====
-- Runs of one unit (src/password-policy/password-policy.util.ts).
use facturify.Base.{
  ℕ, suc, zero, ◌+◌, ◌≤◌, ◌≡◌, ◌↔◌, refl, sym, ap, ◌∙◌, true, false, ◌==◌, [], ◌∷◌, ◌++◌, ltb,
  arith, Bool-cases, inl, inr, ==_iff, ltb→lt, lt→ltb,
}
use facturify.Js.Text.{Text}
use facturify.Password.Text.{repetition_loop, repeats}

-- `run n c s`: n units c and then s.
unfoldable pub run : ℕ → ℕ → Text → Text
run zero c s = s
run (suc n) c s = c ∷ run n c s

-- A text with more than `max` equal units side by side.
abbrev pub HasRun : ℕ → Text → Type 0
HasRun max s = (before : Text) × (c : ℕ) × (after : Text) × (s ≡ before ++ run (suc max) c after)

run-next : (n c : ℕ) (s : Text) → run n c (c ∷ s) ≡ run (suc n) c s
unfolding run
run-next zero c s = refl
run-next (suc n) c s = ap (λ t. c ∷ t) (run-next n c s)

run-HasRun : (max n b : ℕ) (s : Text) → HasRun max s → HasRun max (run n b s)
unfolding run
run-HasRun max zero b s h = h
run-HasRun max (suc n) b s h =
    let (before, c, after, same) = run-HasRun max n b s h in
    (b ∷ before, c, after, ap (λ t. b ∷ t) same)

module _ (max before count c : ℕ) (s : Text) where
  step-over :
      (c == before) ≡ true
      → ltb max (suc count) ≡ true
      → repetition_loop max before count (c ∷ s) ≡ true
  unfolding repetition_loop
  step-over h k = rw (h, k) refl

  step-on :
      (c == before) ≡ true
      → ltb max (suc count) ≡ false
      → repetition_loop max before count (c ∷ s) ≡ repetition_loop max c (suc count) s
  unfolding repetition_loop
  step-on h k = rw (h, k) refl

  step-fresh :
      (c == before) ≡ false → repetition_loop max before count (c ∷ s) ≡ repetition_loop max c 1 s
  unfolding repetition_loop
  step-fresh h = rw h refl

-- Inside a run of `count` units, that have been seen.
loop-HasRun :
    (max before count : ℕ) (s : Text)
    → 1 ≤ max
    → count ≤ max
    → repetition_loop max before count s ≡ true
    → HasRun max (run count before s)
unfolding repetition_loop run
loop-HasRun max before count [] h k e = cc
loop-HasRun max before count (c ∷ s) h k e = elim (Bool-cases (c == before)) [
  | inl equal ↦
      let same : c ≡ before = (==_iff c before).0 equal in
      let grown : run count before (c ∷ s) ≡ run (suc count) before s =
        rw same (run-next count before s) in
      elim (Bool-cases (ltb max (suc count))) [
        | inl over ↦
            let full : count ≡ max = omega (arith, k, ltb→lt max (suc count) over) in
            ([], before, s, grown ∙ ap (λ n. run (suc n) before s) full)
        | inr under ↦
            let on = sym (step-on max before count c s equal under) ∙ e in
            rw grown
              (loop-HasRun max before (suc count) s h (ground (arith, under)) (rw same at on))
      ]
  | inr differs ↦
      run-HasRun max count before (c ∷ s)
        (loop-HasRun max c 1 s h h (sym (step-fresh max before count c s differs) ∙ e))
]

loop-hit :
    (max c count k : ℕ) (after : Text)
    → suc max ≤ count + suc k
    → repetition_loop max c count (run (suc k) c after) ≡ true
unfolding run
loop-hit max c count zero after h =
    step-over max c count c after ((==_iff c c).1 refl) (lt→ltb max (suc count) (omega (arith, h)))
loop-hit max c count (suc k) after h = elim (Bool-cases (ltb max (suc count))) [
  | inl over ↦ step-over max c count c (run (suc k) c after) ((==_iff c c).1 refl) over
  | inr under ↦
      step-on max c count c (run (suc k) c after) ((==_iff c c).1 refl) under
      ∙ loop-hit max c (suc count) k after (omega (arith, h))
]

loop-start :
    (m before count c : ℕ) (after : Text)
    → 1 ≤ count
    → repetition_loop (suc m) before count (run (suc (suc m)) c after) ≡ true
unfolding run
loop-start m before count c after h = elim (Bool-cases (c == before)) [
  | inl equal ↦ elim (Bool-cases (ltb (suc m) (suc count))) [
    | inl over ↦ step-over (suc m) before count c (run (suc m) c after) equal over
    | inr under ↦
        step-on (suc m) before count c (run (suc m) c after) equal under
        ∙ loop-hit (suc m) c (suc count) m after (omega (arith, h))
  ]
  | inr differs ↦
      step-fresh (suc m) before count c (run (suc m) c after) differs
      ∙ loop-hit (suc m) c 1 m after (omega arith)
]

loop-later :
    (m before count c : ℕ) (front after : Text)
    → 1 ≤ count
    → repetition_loop (suc m) before count (front ++ run (suc (suc m)) c after) ≡ true
loop-later m before count c [] after k = loop-start m before count c after k
loop-later m before count c (d ∷ front) after k =
    let rest = front ++ run (suc (suc m)) c after in
    elim (Bool-cases (d == before)) [
      | inl equal ↦ elim (Bool-cases (ltb (suc m) (suc count))) [
        | inl over ↦ step-over (suc m) before count d rest equal over
        | inr under ↦
            step-on (suc m) before count d rest equal under
            ∙ loop-later m d (suc count) c front after (omega arith)
      ]
      | inr differs ↦
          step-fresh (suc m) before count d rest differs
          ∙ loop-later m d 1 c front after (omega arith)
    ]

run-repeats :
    (m c : ℕ) (front after : Text) → repeats (suc m) (front ++ run (suc (suc m)) c after) ≡ true
unfolding repeats run
run-repeats m c [] after = loop-hit (suc m) c 1 m after (omega arith)
run-repeats m c (d ∷ front) after = loop-later m d 1 c front after (omega arith)

repeats-HasRun : (max : ℕ) (s : Text) → 1 ≤ max → repeats max s ≡ true → HasRun max s
unfolding repeats run
repeats-HasRun max [] h e = cc
repeats-HasRun max (c ∷ s) h e = loop-HasRun max c 1 s h h e

-- The loop finds just the runs that are too long.
pub repeats_iff : (m : ℕ) (s : Text) → (repeats (suc m) s ≡ true) ↔ HasRun (suc m) s
repeats_iff m s = (
  repeats-HasRun (suc m) s (omega arith),
  λ (front, c, after, same). rw same (run-repeats m c front after),
)
