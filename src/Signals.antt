-- ===== src/Signals.antt =====
-- lib/racccoon-libc/src/rc_signal.c: signals over the notes of the kernel. A handler is a number,
-- SIG_DFL 0 and SIG_IGN 1. What the kernel does with a note is not modelled.
pub mod Delivered
use racccoon.Base.{
  ℕ, zero, suc, ◌+◌, ◌-◌, ◌*◌, ◌/◌, ◌%◌, ◌^◌, Bool, true, false, not, ◌&&◌, ◌||◌, List, [], ◌∷◌,
  ◌++◌, Option, none, some, leb, ltb, ◌==◌, if◌then◌else◌, get_or, set, bit_and, bit_or,
}
use racccoon.Base.Int.{ℤ, pos, negsuc}

abbrev pub nsig : ℕ
nsig = 32

abbrev pub sigint : ℕ
sigint = 2

abbrev pub sigabrt : ℕ
sigabrt = 6

abbrev pub sigkill : ℕ
sigkill = 9

abbrev pub sigterm : ℕ
sigterm = 15

abbrev pub sigstop : ℕ
sigstop = 19

-- `struct sigaction`: SA_SIGINFO and SA_RESETHAND are the two flags that are looked at.
pub record Action : Type 0 where
  pub handler : ℕ
  pub siginfo : Bool
  pub resethand : Bool

abbrev pub default_action : Action
default_action = record { handler = 0; siginfo = false; resethand = false }

-- `__rc_sa`, `__rc_notify_on` and `errno`
pub record Actions : Type 0 where
  pub table : List Action
  pub notify_on : Bool
  pub errno : ℕ

abbrev pub action : Actions → ℕ → Action
action s sig = get_or s.table sig default_action

-- The notes that the library knows by name: "interrupt", "kill", "abort", and any other.
pub data Note : Type 0 where
  interrupt kill abort terminate : Note

-- __rc_note_sig
pub note_sig : Note → ℕ
note_sig interrupt = sigint
note_sig kill = sigkill
note_sig abort = sigabrt
note_sig terminate = sigterm

-- __rc_sig_note
pub sig_note : ℕ → Note
sig_note sig =
    if sig == sigint
    then interrupt
    else if sig == sigkill
    then kill
    else if sig == sigabrt
    then abort
    else terminate

-- What __rc_note calls: the handler, on the signal, and the argument of SYS_NOTED; the default action
-- does not come back from SYS_NOTED.
pub data Effect : Type 0 where
  dies : Effect
  continues : Effect
  handles : ℕ → ℕ → Effect

-- __rc_note
pub rc_note : Actions → Note → Actions × Effect
unfolding note_sig
rc_note s note =
    let sig = note_sig note in
    let a = action s sig in
    let reset = record s { table = set s.table sig (record a { handler = 0; siginfo = false }) } in
    let after = if a.resethand then reset else s in
    if a.siginfo
    then (after, handles a.handler sig)
    else if a.handler == 0
    then (s, dies)
    else if a.handler == 1
    then (after, continues)
    else (after, handles a.handler sig)

-- `sig <= 0 || sig >= NSIG_RC`
abbrev pub no_signal : ℤ → Bool
no_signal (pos n) = n == 0 || leb nsig n
no_signal (negsuc n) = true

abbrev pub index_of : ℤ → ℕ
index_of (pos n) = n
index_of (negsuc n) = 0

-- signal: the old handler, or none for SIG_ERR
pub signal : Actions → ℤ → ℕ → Actions × Option ℕ
signal s sig h =
    let i = index_of sig in
    let old = action s i in
    if no_signal sig || i == sigkill || i == sigstop then (s, none) else (
      record s {
        table = set s.table i (record { handler = h; siginfo = false; resethand = false });
        notify_on = true;
      },
      some (if old.siginfo then 0 else old.handler),
    )

-- sigaction: the old action, or none where it fails
pub sigaction : Actions → ℤ → Option Action → Actions × Option Action
sigaction s sig none =
    if no_signal sig then (record s { errno = 22 }, none) else (s, some (action s (index_of sig)))
sigaction s sig (some act) =
    let i = index_of sig in
    if no_signal sig || i == sigkill || i == sigstop
    then (record s { errno = 22 }, none)
    else (record s { table = set s.table i act; notify_on = true }, some (action s i))
