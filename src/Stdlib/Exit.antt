-- ===== src/Stdlib/Exit.antt =====
-- __cxa_atexit and atexit of lib/racccoon-libc/src/stdlib.c, and exit of exit.c. A function and its
-- argument are two numbers, and `call` says what a call of them does: it may register more.
use racccoon.Base.{
  ℕ, zero, suc, ◌+◌, ◌≤◌, ◌<◌, ◌≡◌, refl, sym, ap, ◌∙◌, List, [], ◌∷◌, ◌++◌, append-nil,
  append_assoc, length-append, Option, none, some, leb, if◌then◌else◌, arith, length,
}
use racccoon.Base.Int.{ℤ, pos, negsuc}
use mathlib.Core.List.{reverse, reverse-cons}

abbrev pub atexit_max : ℕ
atexit_max = 256

-- `struct __libc_atexit_ent`
pub record Entry : Type 0 where
  pub fn : ℕ
  pub arg : ℕ

-- `__libc_atexit_fns[0 .. __libc_atexit_n)`, with the last one first
abbrev pub Registered : Type 0
Registered = List Entry

pub cxa_atexit : Registered → Entry → Registered × ℤ
cxa_atexit fns e = if leb atexit_max (length fns) then (fns, negsuc 0) else (e ∷ fns, pos 0)

pub atexit : Registered → ℕ → Registered × ℤ
unfolding cxa_atexit
atexit fns fn = cxa_atexit fns (record { fn = fn; arg = 0 })

-- Calls of __cxa_atexit, in order; the results are not looked at.
pub register_all : Registered → List Entry → Registered
unfolding cxa_atexit
register_all fns [] = fns
register_all fns (e ∷ es) = register_all (cxa_atexit fns e).0 es

module _ {W : Type 0} (call : Entry → Registered → W → Registered × W) where
  -- `while (__libc_atexit_n > 0) { … }`, with fuel
  pub run_registered : ℕ → Registered → W → Option W
  run_registered f [] w = some w
  run_registered zero (e ∷ fns) w = none
  run_registered (suc f) (e ∷ fns) w = let (fns', w') = call e fns w in run_registered f fns' w'

  -- exit, up to _exit: the handlers, the entries of .fini_array from the last one, and the flush of
  -- stdio
  pub exit : (finish : ℕ → W → W) → (flush : W → W) → List ℕ → ℕ → Registered → W → Option W
  unfolding run_registered
  exit finish flush fini f fns w = elim (run_registered f fns w) [
    | none ↦ none
    | some w' ↦ some (flush (run_fini (reverse fini) w'))
  ]
    where
      run_fini : List ℕ → W → W
      run_fini [] w = w
      run_fini (fn ∷ fini) w = run_fini fini (finish fn w)

registers :
    (fns : Registered) (e : Entry) → length fns < atexit_max → (cxa_atexit fns e).0 ≡ e ∷ fns
unfolding cxa_atexit
registers fns e h = ground arith

register_all_lem :
    (fns : Registered) (es : List Entry)
    → length fns + length es ≤ atexit_max
    → register_all fns es ≡ reverse es ++ fns
unfolding register_all
register_all_lem fns [] h = refl
register_all_lem fns (e ∷ es) h =
    ap (λ r. register_all r es) (registers fns e (omega arith))
    ∙ register_all_lem (e ∷ fns) es (omega arith)
    ∙ sym (append_assoc (reverse es) (e ∷ []) fns)
    ∙ ap (λ r. r ++ fns) (sym (reverse-cons e es))

module _ {W : Type 0} (effect : Entry → W → W) where
  abbrev pub run_all : List Entry → W → W
  run_all [] w = w
  run_all (e ∷ es) w = run_all es (effect e w)

  run_registered_lem :
      (f : ℕ) (es : List Entry) (w : W)
      → length es ≤ f
      → run_registered (λ e fns w. (fns, effect e w)) f es w ≡ some (run_all es w)
  unfolding run_registered
  run_registered_lem f [] w h = refl
  run_registered_lem zero (e ∷ es) w h = absurd (omega arith)
  run_registered_lem (suc f) (e ∷ es) w h = run_registered_lem f es (effect e w) (omega arith)

  -- exit calls the registered handlers, each once, in the reverse order of their registration, as long
  -- as no more than ATEXIT_MAX were registered and none of them registers another.
  pub run_registered-register_all :
      (f : ℕ) (es : List Entry) (w : W)
      → length es ≤ atexit_max
      → length es ≤ f
      → run_registered (λ e fns w. (fns, effect e w)) f (register_all [] es) w
        ≡ some (run_all (reverse es) w)
  run_registered-register_all f es w room fuel =
      let order : register_all [] es ≡ reverse es =
        register_all_lem [] es (omega arith) ∙ append-nil (reverse es) in
      ap (λ r. run_registered (λ e fns w. (fns, effect e w)) f r w) order
      ∙ run_registered_lem f (reverse es) w (omega (arith, length-reverse es))
    where
      length-reverse : (es : List Entry) → length (reverse es) ≡ length es
      length-reverse [] = refl
      length-reverse (e ∷ es) =
          ap length (reverse-cons e es)
          ∙ omega (arith, length-append (reverse es) (e ∷ []), length-reverse es)
