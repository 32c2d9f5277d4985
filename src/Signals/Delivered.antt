-- ===== src/Signals/Delivered.antt =====
-- The handler that signal() installed is the one that the note of the signal runs.
use racccoon.Base.{
  ℕ, ◌≡◌, refl, sym, ==_iff, ◌⊎◌, inl, inr, true, ◌||◌, ◌==◌, if◌then◌else◌, set, Bool-cases,
}
use racccoon.Signals.{
  sigint, sigabrt, sigkill, sigterm, Action, Actions, note_sig, sig_note, Effect, dies, continues,
  handles,
}

-- The signals that have a note of their own come back as themselves, and every other one as SIGTERM.
pub note_sig-sig_note :
    (sig : ℕ)
    → note_sig (sig_note sig)
      ≡ (if sig == sigint || sig == sigkill || sig == sigabrt then sig else sigterm)
unfolding note_sig sig_note
note_sig-sig_note sig = elim (Bool-cases (sig == sigint)) [
  | inl a ↦ rw a (sym ((==_iff sig sigint).0 a))
  | inr a ↦ elim (Bool-cases (sig == sigkill)) [
    | inl b ↦ rw (a, b) (sym ((==_iff sig sigkill).0 b))
    | inr b ↦ elim (Bool-cases (sig == sigabrt)) [
      | inl c ↦ rw (a, b, c) (sym ((==_iff sig sigabrt).0 c))
      | inr c ↦ rw (a, b, c) refl
    ]
  ]
]

-- The signals that a note can raise and a program can handle.
abbrev pub Handled : ℕ → Type 0
Handled sig = (sig ≡ sigint) ⊎ ((sig ≡ sigabrt) ⊎ (sig ≡ sigterm))

installed : Actions → ℕ → Action → Actions
installed s sig a = record s { table = set s.table sig a; notify_on = true }

-- What __rc_note does with a plain handler.
abbrev pub effect : ℕ → ℕ → Effect
effect h sig = if h == 0 then dies else if h == 1 then continues else handles h sig
